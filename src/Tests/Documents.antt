-- ===== src/Tests/Documents.antt =====
-- A `DocumentMap` of backend/mappings/document_map.py.
use multi_tenant_rag_applica.Python.Sorting.{sort_by, insert_by}
use multi_tenant_rag_applica.Python.Uuid.{uuid}
use multi_tenant_rag_applica.Config.{get_collection_name}
use multi_tenant_rag_applica.Prelude.{
  ◌≡◌, refl, List, [], ◌∷◌, nat_eq, list_eq, ◌==◌, some, if◌then◌else◌, contains,
}
use multi_tenant_rag_applica.Python.Text.{text, strip_left, is_space, strip, strip_right}
use multi_tenant_rag_applica.Python.Object.{Object, str, int, pos, mapping, entry, end, items}
use multi_tenant_rag_applica.Python.Exec.{ok, key_error, ◌>>=◌}
use multi_tenant_rag_applica.Python.Dict.{lookup, insert}
use multi_tenant_rag_applica.Mappings.Common.{
  required_uuid, validated_user_id, validated_document_collection_type, required_identifier,
  positive_paragraph_id,
}
use multi_tenant_rag_applica.Mappings.DocumentMap.{
  DocumentMap, Paragraphs, init, validated_replacement, get_paragraph_data, validate_update,
  update_paragraphs, restore_document, delete_document, create_document,
}
use multi_tenant_rag_applica.Mappings.DocumentMap.Calls.{
  Call, create, delete, update, perform, run, IsValid, run_documents-IsValid,
  perform_error_unchanged, validate_update-exact,
}
use multi_tenant_rag_applica.Mappings.DocumentMap.Sequential.{
  IsSequential, validated_replacement-IsSequential,
}
use multi_tenant_rag_applica.Mappings.DocumentMap.Snapshot.{
  paragraph_object, restore-get_paragraph_data,
}
use multi_tenant_rag_applica.Tests.Given.{alice, id_1, id_1-canonical}

abbrev pub new_map : DocumentMap
new_map = record { user_id = alice; collection_type = text "policy"; documents = [] }

-- Out of order, as a caller may give them.
abbrev pub two : Object
two = mapping (entry (int (pos 2)) (str (text "b")) (entry (int (pos 1)) (str (text "a")) end))

abbrev pub saved_two : Paragraphs
saved_two = (1, text "a") ∷ (2, text "b") ∷ []

abbrev pub calls : List Call
calls = create (str id_1) ∷ update (str id_1) two ∷ []

abbrev pub map_of_two : DocumentMap
map_of_two = run new_map calls

run_documents-IsValid_example : IsValid map_of_two
unfolding init validated_user_id get_collection_name strip_left is_space
    validated_document_collection_type required_identifier
run_documents-IsValid_example =
    run_documents-IsValid (str alice) (str (text "Policy")) calls new_map refl

perform_error_unchanged_example : (perform (delete (str id_1)) new_map).1 ≡ new_map
unfolding perform delete_document ◌>>=◌ required_uuid required_identifier strip strip_right
    strip_left is_space uuid lookup
perform_error_unchanged_example = perform_error_unchanged (delete (str id_1)) new_map key_error refl

validate_update-exact_example :
    ((validate_update (str id_1) two map_of_two).0
      ≡ (update_paragraphs (str id_1) two map_of_two).0)
    × ((validate_update (str id_1) two map_of_two).1 ≡ map_of_two)
validate_update-exact_example = validate_update-exact (str id_1) two map_of_two

validated_replacement-IsSequential_example : IsSequential saved_two
unfolding validated_replacement items positive_paragraph_id insert contains sort_by insert_by
validated_replacement-IsSequential_example =
    validated_replacement-IsSequential two {d = saved_two} refl

restore-get_paragraph_data_example :
    (let restored = restore_document (str id_1) (paragraph_object saved_two) new_map in
      (restored.0 ≡ ok tt)
      × (lookup id_1 restored.1.documents
          ≡ (if id_1 == id_1 then some saved_two else lookup id_1 new_map.documents)))
unfolding init validated_user_id get_collection_name strip_left is_space
    validated_document_collection_type required_identifier get_paragraph_data ◌>>=◌ required_uuid
    uuid lookup run perform update_paragraphs create_document insert validated_replacement items
    positive_paragraph_id contains sort_by insert_by
restore-get_paragraph_data_example =
    restore-get_paragraph_data (str id_1) id_1 id_1 map_of_two new_map saved_two
      (run_documents-IsValid (str alice) (str (text "Policy")) calls new_map refl) id_1-canonical
      refl
