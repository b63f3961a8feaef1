-- ===== src/Wizard/Recovery.antt =====
-- `_recover_save` of backend/wizard/save.py: what a save that failed has written is taken back, step
-- by step, whatever the steps before raised. The calls of the vector store are a parameter.
pub mod Restored
use multi_tenant_rag_applica.Prelude.{
  ℕ, Bool, true, false, Option, none, some, List, [], ◌∷◌, ◌++◌, ◌==◌, nat_eq, list_eq, contains,
  if◌then◌else◌,
}
use multi_tenant_rag_applica.Python.Text.{Text}
use multi_tenant_rag_applica.Python.Object.{Object}
use multi_tenant_rag_applica.Python.Exec.{Result, Error, ok, err, key_error, bind}
use multi_tenant_rag_applica.Python.Dict.{Dict, lookup, insert}
use multi_tenant_rag_applica.Mappings.ParagraphMap.{ParagraphMap, replace_document}
use multi_tenant_rag_applica.Mappings.DocumentMap.{DocumentMap, restore_document}

-- What the store's calls answer; `R` is the type of its records.
pub record Store (R : Type 0) : Type 0 where
  pub update_paragraph_ids : Dict Text ℕ → Result (Unit {0})
  pub verify_paragraph_ids : Dict Text ℕ → Result (Unit {0})
  pub delete_chunks : List Text → Result (Unit {0})
  pub restore_chunks : List R → Result (Unit {0})
  pub chunk_id : R → Text

pub record Maps : Type 0 where
  pub paragraph_map : ParagraphMap
  pub document_map : DocumentMap

-- `list(dict.fromkeys(ids))`
unfoldable pub without_repeats : List Text → List Text → List Text
without_repeats seen [] = []
without_repeats seen (x ∷ xs) =
    let again = without_repeats seen xs in
    let rest = without_repeats (x ∷ seen) xs in if contains x seen then again else x ∷ rest

-- `{chunk_id: old_paragraph_by_chunk[chunk_id] for chunk_id in ids}`, from the dictionary so far.
unfoldable pub old_ids_of : Dict Text ℕ → List Text → Dict Text ℕ → Result (Dict Text ℕ)
old_ids_of old_ids [] old_paragraph_by_chunk = ok old_ids
old_ids_of old_ids (x ∷ xs) old_paragraph_by_chunk =
    bind (elim (lookup x old_paragraph_by_chunk) [ none ↦ err key_error | some p ↦ ok p ])
      λ paragraph_id. old_ids_of (insert x paragraph_id old_ids) xs old_paragraph_by_chunk

-- A step under `try`: what it raised, and the identifiers that it leaves unresolved.
unfoldable pub attempted : List Text → Result (Unit {0}) → List Error × List Text
attempted ids (ok u) = ([], [])
attempted ids (err e) = (e ∷ [], ids)

unfoldable pub both : List Error × List Text → List Error × List Text → List Error × List Text
both (es, xs) (fs, ys) = (es ++ fs, xs ++ ys)

unfoldable pub chunk_ids_of : {R : Type 0} → Store R → List R → List Text
chunk_ids_of s [] = []
chunk_ids_of s (r ∷ rs) = s.chunk_id r ∷ chunk_ids_of s rs

-- The steps on the maps, and the answer.
unfoldable pub map_steps :
    Object → Object → Object → List Error × List Text → Maps → (List Error × List Text) × Maps
unfolding attempted both without_repeats
map_steps document_id old_paragraph_data old_chunk_mappings (errors, unresolved_ids) maps =
    let (r, paragraph_map) = replace_document document_id old_chunk_mappings maps.paragraph_map in
    let (q, document_map) = restore_document document_id old_paragraph_data maps.document_map in
    (
      (errors ++ ((attempted [] r).0 ++ (attempted [] q).0), without_repeats [] unresolved_ids),
      record { paragraph_map = paragraph_map; document_map = document_map },
    )

module _ {R : Type 0} (s : Store R) where
  unfoldable pub retained_step : List Text → Dict Text ℕ → List Error × List Text
  unfolding attempted
  retained_step ids old_ids =
      attempted ids (bind (s.update_paragraph_ids old_ids) λ _. s.verify_paragraph_ids old_ids)

  unfoldable pub insert_step : List Text → List Error × List Text
  unfolding attempted without_repeats
  insert_step [] = ([], [])
  insert_step (x ∷ ids) = attempted (x ∷ ids) (s.delete_chunks (without_repeats [] (x ∷ ids)))

  unfoldable pub restore_step : List R → List Error × List Text
  unfolding attempted chunk_ids_of
  restore_step [] = ([], [])
  restore_step (r ∷ records) =
      attempted (chunk_ids_of s (r ∷ records)) (s.restore_chunks (r ∷ records))

  -- The three steps on the store.
  unfoldable pub store_steps :
      List R → List Text → List Text → Dict Text ℕ → Result (List Error × List Text)
  unfolding old_ids_of retained_step insert_step restore_step both
  store_steps deleted_snapshots attempted_insert_ids [] old_paragraph_by_chunk =
      ok (both (insert_step attempted_insert_ids) (restore_step deleted_snapshots))
  store_steps deleted_snapshots attempted_insert_ids (x ∷ retained_ids) old_paragraph_by_chunk =
      bind (old_ids_of [] (x ∷ retained_ids) old_paragraph_by_chunk) λ old_ids. ok (
        both (retained_step (x ∷ retained_ids) old_ids)
          (both (insert_step attempted_insert_ids) (restore_step deleted_snapshots)))

  unfoldable pub recover_save :
      Object
      → Object
      → Object
      → List R
      → List Text
      → List Text
      → Dict Text ℕ
      → Maps
      → Result (List Error × List Text) × Maps
  unfolding store_steps map_steps
  recover_save document_id old_paragraph_data old_chunk_mappings deleted_snapshots
        attempted_insert_ids attempted_retained_ids old_paragraph_by_chunk maps =
      elim (store_steps deleted_snapshots attempted_insert_ids attempted_retained_ids
        old_paragraph_by_chunk) [
          | err e ↦ (err e, maps)
          | ok taken ↦
              let (answer, maps') =
                map_steps document_id old_paragraph_data old_chunk_mappings taken maps in
              (ok answer, maps')
        ]
