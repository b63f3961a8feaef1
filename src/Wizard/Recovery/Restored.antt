-- ===== src/Wizard/Recovery/Restored.antt =====
-- The maps after `_recover_save` of backend/wizard/save.py.
use multi_tenant_rag_applica.Prelude.{
  ℕ, ◌≡◌, refl, true, ap, all, map, contains, ◌++◌, ◌∷◌, none, some, arith, eq_iff, Option-cases,
  inl, inr, List, [], ◌==◌, nat_eq, list_eq, pair_eq, if◌then◌else◌,
}
use mathlib.Core.List.{append-nil}
use multi_tenant_rag_applica.Python.Text.{Text}
use multi_tenant_rag_applica.Python.Object.{Object}
use multi_tenant_rag_applica.Python.Exec.{Error, Result, ok, err, Result-cases}
use multi_tenant_rag_applica.Python.Dict.{Dict, lookup, has_key, insert, lookup-insert}
use multi_tenant_rag_applica.Mappings.Common.{required_uuid}
use multi_tenant_rag_applica.Mappings.ParagraphMap.{
  Chunks, replace_document, validated_document_replacement,
}
use multi_tenant_rag_applica.Mappings.ParagraphMap.Popping as Chunked
use multi_tenant_rag_applica.Mappings.ParagraphMap.Calls.{replace_document-replaces}
use multi_tenant_rag_applica.Mappings.DocumentMap.{
  DocumentMap, Paragraphs, restore_document, get_paragraph_data,
}
use multi_tenant_rag_applica.Mappings.DocumentMap.Calls as Kept
use multi_tenant_rag_applica.Mappings.DocumentMap.Snapshot.{
  paragraph_object, restore-get_paragraph_data,
}
use multi_tenant_rag_applica.Wizard.Recovery.{
  Store, Maps, attempted, both, without_repeats, old_ids_of, chunk_ids_of, retained_step,
  insert_step, restore_step, store_steps, map_steps, recover_save,
}

map_steps-answer :
    (document_id texts chunks : Object) (errors : List Error) (ids : List Text) (maps : Maps)
    → (replace_document document_id chunks maps.paragraph_map).0 ≡ ok tt
    → (restore_document document_id texts maps.document_map).0 ≡ ok tt
    → (map_steps document_id texts chunks (errors, ids) maps).0 ≡ (errors, without_repeats [] ids)
unfolding map_steps attempted
map_steps-answer document_id texts chunks errors ids maps h k =
    rw (h, k, map_steps) (ap (λ l. (l, without_repeats [] ids)) (append-nil errors))

recover_save-taken :
    {R : Type 0} (s : Store R) (document_id texts chunks : Object) (deleted : List R)
    (inserted retained : List Text) (old_by_chunk : Dict Text ℕ) (maps : Maps)
    (taken : List Error × List Text)
    → store_steps s deleted inserted retained old_by_chunk ≡ ok taken
    → recover_save s document_id texts chunks deleted inserted retained old_by_chunk maps ≡ (
      ok (map_steps document_id texts chunks taken maps).0,
      (map_steps document_id texts chunks taken maps).1,
    )
unfolding recover_save
recover_save-taken s document_id texts chunks deleted inserted retained old_by_chunk maps taken h =
    rw (h, recover_save)

-- What a call raised.
abbrev pub raised : Result (Unit {0}) → List Error
raised (ok u) = []
raised (err e) = e ∷ []

-- What the calls of the store raise in a recovery, each of which stands for one step; the
-- verification is of an update that did not raise.
abbrev pub update_errors : {R : Type 0} → Store R → List Text → Dict Text ℕ → List Error
update_errors s [] old_ids = []
update_errors s (x ∷ ids) old_ids = elim (s.update_paragraph_ids old_ids) [
  | err e ↦ e ∷ []
  | ok u ↦ raised (s.verify_paragraph_ids old_ids)
]

abbrev pub delete_errors : {R : Type 0} → Store R → List Text → List Error
delete_errors s [] = []
delete_errors s (x ∷ ids) = raised (s.delete_chunks (without_repeats [] (x ∷ ids)))

abbrev pub restore_errors : {R : Type 0} → Store R → List R → List Error
restore_errors s [] = []
restore_errors s (r ∷ records) = raised (s.restore_chunks (r ∷ records))

-- The identifiers of a step that raised.
abbrev pub left_by : List Error → List Text → List Text
left_by [] ids = []
left_by (e ∷ errors) ids = ids

module _ {R : Type 0} (s : Store R) where
  retained_step-raised :
      (x : Text) (ids : List Text) (old_ids : Dict Text ℕ)
      → retained_step s (x ∷ ids) old_ids
        ≡ (update_errors s (x ∷ ids) old_ids, left_by (update_errors s (x ∷ ids) old_ids) (x ∷ ids))
  unfolding retained_step attempted
  retained_step-raised x ids old_ids = elim (Result-cases (s.update_paragraph_ids old_ids)) [
    | inr (e, g) ↦ ground (arith, g)
    | inl (u, g) ↦ elim (Result-cases (s.verify_paragraph_ids old_ids)) [
      | inr (e, h) ↦ ground (arith, g, h)
      | inl (v, h) ↦ ground (arith, g, h)
    ]
  ]

  insert_step-raised :
      (ids : List Text)
      → insert_step s ids ≡ (delete_errors s ids, left_by (delete_errors s ids) ids)
  unfolding insert_step attempted
  insert_step-raised [] = refl
  insert_step-raised (x ∷ ids) =
      elim (Result-cases (s.delete_chunks (without_repeats [] (x ∷ ids)))) [
        | inr (e, g) ↦ rw g
        | inl (u, g) ↦ rw g
      ]

  chunk_ids_of-map : (records : List R) → chunk_ids_of s records ≡ map s.chunk_id records
  unfolding chunk_ids_of
  chunk_ids_of-map [] = refl
  chunk_ids_of-map (r ∷ records) = ap (◌∷◌ (s.chunk_id r)) (chunk_ids_of-map records)

  restore_step-raised :
      (records : List R)
      → restore_step s records
        ≡ (restore_errors s records, left_by (restore_errors s records) (map s.chunk_id records))
  unfolding restore_step attempted
  restore_step-raised [] = refl
  restore_step-raised (r ∷ records) = elim (Result-cases (s.restore_chunks (r ∷ records))) [
    | inr (e, g) ↦ rw g (ap (λ ids. (e ∷ [], ids)) (chunk_ids_of-map (r ∷ records)))
    | inl (u, g) ↦ rw g
  ]

  -- The errors and the unresolved identifiers of the three steps on the store.
  abbrev pub store_errors : List R → List Text → List Text → Dict Text ℕ → List Error
  store_errors deleted inserted retained old_ids =
      update_errors s retained old_ids ++ (delete_errors s inserted ++ restore_errors s deleted)

  abbrev pub unresolved_ids_of : List R → List Text → List Text → Dict Text ℕ → List Text
  unresolved_ids_of deleted inserted retained old_ids =
      left_by (update_errors s retained old_ids) retained
      ++ (left_by (delete_errors s inserted) inserted
          ++ left_by (restore_errors s deleted) (map s.chunk_id deleted))

  store_steps-raised :
      (deleted : List R) (inserted retained : List Text) (old_by_chunk old_ids : Dict Text ℕ)
      → old_ids_of [] retained old_by_chunk ≡ ok old_ids
      → store_steps s deleted inserted retained old_by_chunk
        ≡ ok (
          store_errors deleted inserted retained old_ids,
          unresolved_ids_of deleted inserted retained old_ids,
        )
  unfolding store_steps both
  store_steps-raised deleted inserted [] old_by_chunk old_ids h =
      rw (insert_step-raised inserted, restore_step-raised deleted)
  store_steps-raised deleted inserted (x ∷ retained) old_by_chunk old_ids h = rw (
    h,
    retained_step-raised x retained old_ids,
    insert_step-raised inserted,
    restore_step-raised deleted,
  )

old_ids_of-known :
    (retained : List Text) (old_by_chunk old_ids : Dict Text ℕ)
    → all (λ x. has_key x old_by_chunk) retained ≡ true
    → (d : Dict Text ℕ) × (old_ids_of old_ids retained old_by_chunk ≡ ok d)
      × ((chunk : Text)
          → lookup chunk d
            ≡ (if contains chunk retained then lookup chunk old_by_chunk else lookup chunk old_ids))
unfolding old_ids_of contains
old_ids_of-known [] old_by_chunk old_ids h = (old_ids, refl, λ chunk. refl)
old_ids_of-known (x ∷ xs) old_by_chunk old_ids h = elim (Option-cases (lookup x old_by_chunk)) [
  | inl g ↦ absurd (ground arith)
  | inr (p, g) ↦
      let (d, e, k) = old_ids_of-known xs old_by_chunk (insert x p old_ids) (ground arith) in
      (
        d,
        rw g e,
        λ chunk. ground (arith, k chunk, g, lookup-insert x chunk p old_ids, eq_iff x chunk),
      )
]

-- The recovery of a document whose texts `d` were read from a valid map, where the old chunks pass
-- the checks of the paragraph map as `c` and the old paragraphs of the retained chunks are known:
-- whatever the calls of the store raise, it reports exactly that, in the order of the calls, and the
-- chunks of the steps that raised, each once; the dictionary for the update has the old paragraph of
-- each retained chunk and no other; and both maps have the old texts and chunks of the document, and
-- what they had of every other one.
pub recover_save-restores :
    {R : Type 0} (s : Store R) (document_id old_chunk_mappings : Object) (key k chunk : Text)
    (i : ℕ) (before : DocumentMap) (d : Paragraphs) (c : Chunks) (deleted_snapshots : List R)
    (attempted_insert_ids attempted_retained_ids : List Text) (old_paragraph_by_chunk : Dict Text ℕ)
    (maps : Maps)
    → Kept.IsValid before
    → (get_paragraph_data document_id before).0 ≡ ok d
    → required_uuid document_id ≡ ok key
    → Chunked.IsValid maps.paragraph_map
    → validated_document_replacement key old_chunk_mappings maps.paragraph_map ≡ ok c
    → all (λ x. has_key x old_paragraph_by_chunk) attempted_retained_ids ≡ true
    → let (answer, maps') =
        recover_save s document_id
          (paragraph_object d)
          old_chunk_mappings
          deleted_snapshots
          attempted_insert_ids
          attempted_retained_ids
          old_paragraph_by_chunk
          maps in
      ((old_ids : Dict Text ℕ) × (answer
          ≡ ok (
            store_errors s deleted_snapshots attempted_insert_ids attempted_retained_ids old_ids,
            without_repeats [] (
                unresolved_ids_of s deleted_snapshots attempted_insert_ids attempted_retained_ids
                  old_ids),
          ))
        × (lookup chunk old_ids ≡ (
            if contains chunk attempted_retained_ids
            then lookup chunk old_paragraph_by_chunk
            else none)))
      × (lookup k maps'.document_map.documents
          ≡ (if key == k then some d else lookup k maps.document_map.documents))
      × (lookup (k, i) maps'.paragraph_map.paragraphs
          ≡ (if k == key then lookup i c else lookup (k, i) maps.paragraph_map.paragraphs))
unfolding map_steps lookup
recover_save-restores s document_id old key k chunk i before d c deleted inserted retained
      old_by_chunk maps v g r w e h =
    let (a, b) = restore-get_paragraph_data document_id key k before maps.document_map d v r g in
    let (x, y) = replace_document-replaces document_id old maps.paragraph_map key c (k, i) w r e in
    let (old_ids, known, found) = old_ids_of-known retained old_by_chunk [] h in
    let errors = store_errors s deleted inserted retained old_ids in
    let unresolved = unresolved_ids_of s deleted inserted retained old_ids in
    let stepped =
      map_steps-answer document_id (paragraph_object d) old errors unresolved maps x a in
    rw
      (recover_save-taken s document_id (paragraph_object d) old deleted inserted retained
        old_by_chunk maps (errors, unresolved)
        (store_steps-raised s deleted inserted retained old_by_chunk old_ids known))
      ((old_ids, ap ok stepped, found chunk), b, y)
