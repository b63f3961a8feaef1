-- ===== src/Tests/Paragraphs.antt =====
-- A `ParagraphMap` of backend/mappings/paragraph_map.py.
use multi_tenant_rag_applica.Mappings.DocumentMap.{covers_range}
use multi_tenant_rag_applica.Python.Uuid.{uuid}
use multi_tenant_rag_applica.Config.{get_collection_name}
use multi_tenant_rag_applica.Mappings.Common.{
  validated_user_id, validated_document_collection_type, required_identifier, positive_paragraph_id,
  required_uuid,
}
use multi_tenant_rag_applica.Prelude.{
  ◌≡◌, refl, List, [], ◌∷◌, nat_eq, list_eq, pair_eq, ◌==◌, if◌then◌else◌, nodup, contains,
}
use multi_tenant_rag_applica.Python.Text.{text, strip_left, is_space}
use multi_tenant_rag_applica.Python.Object.{
  Object, str, int, pos, mapping, entry, end, tuple, list, cons, nil, items, elements,
}
use multi_tenant_rag_applica.Python.Exec.{ok, traverse, ◌>>=◌, for_each, modify}
use multi_tenant_rag_applica.Python.Dict.{lookup, insert}
use multi_tenant_rag_applica.Mappings.ParagraphMap.{
  ParagraphMap, Chunks, init, validated_document_replacement, validate_document_replacement,
  replace_document, validated_entries, validated_chunk_ids, sequential_chunks, is_free_for_document,
  set_chunks, validated_paragraph_key, is_free_for, assign_chunks, chunks_at, set_owner,
  set_paragraph,
}
use multi_tenant_rag_applica.Mappings.ParagraphMap.Popping.{IsValid}
use multi_tenant_rag_applica.Mappings.ParagraphMap.Calls.{
  Call, set_chunks_of, delete_one, perform, run, Settles, run_paragraphs-IsValid, perform-Settles,
  validate-exact, replace_document-replaces,
}
use multi_tenant_rag_applica.Python.Sorting.{sort_by, insert_by}
use multi_tenant_rag_applica.Tests.Given.{alice, id_1, id_2, id_3, id_1-canonical}

abbrev pub new_map : ParagraphMap
new_map = record {
  user_id = alice;
  collection_type = text "policy";
  paragraphs = [];
  chunk_owners = [];
}

abbrev pub key_1 : Object
key_1 = tuple (cons (str id_1) (cons (int (pos 1)) nil))

abbrev pub calls : List Call
calls = set_chunks_of key_1 (list (cons (str id_2) (cons (str id_3) nil))) ∷ []

abbrev pub map_of_two : ParagraphMap
map_of_two = run new_map calls

-- The second paragraph takes a chunk of the first.
abbrev pub replacement : Object
replacement = mapping (
    entry (int (pos 2)) (list (cons (str id_3) nil))
      (entry (int (pos 1)) (list (cons (str id_2) nil)) end))

abbrev pub replaced_chunks : Chunks
replaced_chunks = (1, id_2 ∷ []) ∷ (2, id_3 ∷ []) ∷ []

run_paragraphs-IsValid_example : IsValid map_of_two
unfolding init validated_user_id get_collection_name strip_left is_space
    validated_document_collection_type required_identifier
run_paragraphs-IsValid_example =
    run_paragraphs-IsValid (str alice) (str (text "policy")) calls new_map refl

perform-Settles_example : Settles map_of_two (perform (delete_one key_1) map_of_two)
unfolding init validated_user_id get_collection_name strip_left is_space
    validated_document_collection_type required_identifier
perform-Settles_example =
    perform-Settles map_of_two (delete_one key_1)
      (run_paragraphs-IsValid (str alice) (str (text "policy")) calls new_map refl)

validate-exact_example :
    (validate_document_replacement (str id_1) replacement map_of_two).0
    ≡ (replace_document (str id_1) replacement map_of_two).0
unfolding init validated_user_id get_collection_name strip_left is_space
    validated_document_collection_type required_identifier
validate-exact_example =
    validate-exact (str id_1) replacement map_of_two
      (run_paragraphs-IsValid (str alice) (str (text "policy")) calls new_map refl)

replace_document-replaces_example :
    ((replace_document (str id_1) replacement map_of_two).0 ≡ ok tt)
    × (lookup (id_1, 2) (replace_document (str id_1) replacement map_of_two).1.paragraphs ≡ (
        if id_1 == id_1 then lookup 2 replaced_chunks else lookup (id_1, 2) map_of_two.paragraphs))
unfolding init validated_document_replacement lookup run perform validated_user_id
    get_collection_name strip_left is_space validated_document_collection_type required_identifier
    validated_entries items positive_paragraph_id validated_chunk_ids traverse elements
    required_uuid uuid nodup sequential_chunks insert covers_range is_free_for_document set_chunks
    ◌>>=◌ validated_paragraph_key is_free_for assign_chunks for_each chunks_at set_owner
    set_paragraph sort_by insert_by modify contains
replace_document-replaces_example =
    replace_document-replaces (str id_1) replacement map_of_two id_1 replaced_chunks (id_1, 2)
      (run_paragraphs-IsValid (str alice) (str (text "policy")) calls new_map refl) id_1-canonical
      refl
