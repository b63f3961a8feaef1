-- ===== src/Tests/Recovering.antt =====
-- The recovery of a save in backend/wizard/save.py whose store fails twice.
use multi_tenant_rag_applica.Mappings.ParagraphMap.{
  init as init_chunks, validated_document_replacement, validated_entries, validated_chunk_ids,
  sequential_chunks, is_free_for_document, set_chunks, validated_paragraph_key, is_free_for,
  assign_chunks, chunks_at, set_owner, set_paragraph,
}
use multi_tenant_rag_applica.Python.Sorting.{sort_by, insert_by}
use multi_tenant_rag_applica.Python.Uuid.{uuid}
use multi_tenant_rag_applica.Config.{get_collection_name}
use multi_tenant_rag_applica.Mappings.Common.{
  validated_user_id, validated_document_collection_type, required_identifier, required_uuid,
  positive_paragraph_id,
}
use multi_tenant_rag_applica.Mappings.DocumentMap.{
  init, get_paragraph_data, update_paragraphs, create_document, validated_replacement, covers_range,
}
use multi_tenant_rag_applica.Prelude.{
  none, contains, ℕ, ◌≡◌, refl, some, [], ◌∷◌, ◌==◌, nat_eq, list_eq, pair_eq, if◌then◌else◌,
  contains, nodup,
}
use multi_tenant_rag_applica.Python.Text.{Text, text, strip_left, is_space}
use multi_tenant_rag_applica.Python.Object.{str, items, elements}
use multi_tenant_rag_applica.Python.Exec.{
  ok, err, runtime_error, key_error, ◌>>=◌, traverse, for_each, modify,
}
use multi_tenant_rag_applica.Python.Dict.{Dict, lookup, insert}
use multi_tenant_rag_applica.Mappings.DocumentMap.Calls.{run_documents-IsValid, run, perform}
use multi_tenant_rag_applica.Mappings.DocumentMap.Snapshot.{paragraph_object}
use multi_tenant_rag_applica.Mappings.ParagraphMap.Calls.{
  run_paragraphs-IsValid, run as run_chunks, perform as perform_chunks,
}
use multi_tenant_rag_applica.Wizard.Recovery.{
  Store, Maps, without_repeats, store_steps, recover_save,
}
use multi_tenant_rag_applica.Wizard.Recovery.Restored.{
  recover_save-restores, store_errors, unresolved_ids_of,
}
use multi_tenant_rag_applica.Tests.Given.{alice, id_1, id_2, id_1-canonical}
use multi_tenant_rag_applica.Tests.Documents as Docs
use multi_tenant_rag_applica.Tests.Paragraphs as Chunks

-- Neither the update nor the deletion succeeds.
abbrev failing : Store Text
failing = record {
  update_paragraph_ids = λ d. err runtime_error;
  verify_paragraph_ids = λ d. ok tt;
  delete_chunks = λ ids. err key_error;
  restore_chunks = λ records. ok tt;
  chunk_id = λ r. r;
}

abbrev maps : Maps
maps = record { paragraph_map = Chunks.map_of_two; document_map = Docs.new_map }

abbrev old_by_chunk : Dict Text ℕ
old_by_chunk = (id_2, 1) ∷ []

failures :
    store_steps failing [] (id_1 ∷ id_1 ∷ []) (id_2 ∷ []) old_by_chunk
    ≡ ok (runtime_error ∷ key_error ∷ [], id_2 ∷ id_1 ∷ id_1 ∷ [])
unfolding store_steps lookup
failures = refl

recover_save-restores_example :
    (let (answer, maps') =
        recover_save failing
          (str id_1)
          (paragraph_object Docs.saved_two)
          Chunks.replacement
          []
          (id_1 ∷ id_1 ∷ [])
          (id_2 ∷ [])
          old_by_chunk
          maps in
      ((old_ids : Dict Text ℕ) × (answer
          ≡ ok (
            store_errors failing [] (id_1 ∷ id_1 ∷ []) (id_2 ∷ []) old_ids,
            without_repeats []
                (unresolved_ids_of failing [] (id_1 ∷ id_1 ∷ []) (id_2 ∷ []) old_ids),
          ))
        × (lookup id_2 old_ids
            ≡ (if contains id_2 (id_2 ∷ []) then lookup id_2 old_by_chunk else none)))
      × (lookup id_1 maps'.document_map.documents
          ≡ (if id_1 == id_1 then some Docs.saved_two else lookup id_1 Docs.new_map.documents))
      × (lookup (id_1, 2) maps'.paragraph_map.paragraphs ≡ (
          if id_1 == id_1
          then lookup 2 Chunks.replaced_chunks
          else lookup (id_1, 2) Chunks.map_of_two.paragraphs)))
unfolding init validated_user_id get_collection_name strip_left is_space
    validated_document_collection_type required_identifier get_paragraph_data ◌>>=◌ required_uuid
    uuid lookup run perform update_paragraphs create_document insert validated_replacement items
    positive_paragraph_id contains sort_by insert_by init_chunks validated_document_replacement
    validated_entries validated_chunk_ids traverse elements nodup sequential_chunks
    is_free_for_document set_chunks validated_paragraph_key is_free_for assign_chunks chunks_at
    set_owner set_paragraph run_chunks perform_chunks for_each modify store_steps covers_range
recover_save-restores_example =
    recover_save-restores failing (str id_1) Chunks.replacement id_1 id_1 id_2 2 Docs.map_of_two
      Docs.saved_two Chunks.replaced_chunks [] (id_1 ∷ id_1 ∷ []) (id_2 ∷ []) old_by_chunk maps
      (run_documents-IsValid (str alice) (str (text "Policy")) Docs.calls Docs.new_map refl) refl
      id_1-canonical
      (run_paragraphs-IsValid (str alice) (str (text "policy")) Chunks.calls Chunks.new_map refl)
      refl refl
