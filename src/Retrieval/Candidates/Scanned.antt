-- ===== src/Retrieval/Candidates/Scanned.antt =====
-- What the loop of `_normalized_candidates` in backend/rag/retrieval.py keeps true.
use multi_tenant_rag_applica.Prelude.{
  ℕ, ◌≡◌, refl, ap, true, false, some, List, [], ◌∷◌, ◌++◌, map, arith, ◌==◌, nat_eq, list_eq,
  contains, nodup, All, All-append, Bool-cases, Option-cases, inl, inr, eq_iff,
}
use multi_tenant_rag_applica.Python.Text.{Text}
use multi_tenant_rag_applica.Python.Object.{Object, int, pos}
use multi_tenant_rag_applica.Python.Exec.{Result-cases}
use multi_tenant_rag_applica.Python.Dict.{lookup}
use multi_tenant_rag_applica.Config.{CollectionType, conversations, knowledge_facts, policy}
use multi_tenant_rag_applica.Mappings.Inverse.{contains-append, nodup-append}
use multi_tenant_rag_applica.Retrieval.Candidates.{
  SearchResult, RawResult, malformed, result, NormalResult, Scan, checked_fields, scan_invalid,
  scan_duplicate, scan_new, scan_valid, scan_result, scan_results, segment_number, scan_segment,
  append_result, quarantine_conversation, quarantine_object, indices_of, empty_scan,
}

abbrev pub object_ids : List NormalResult → List Text
object_ids = map (λ item. item.object_id)

module _ (as_text : Object → Text) (uuid5 : Text → ℕ → Text) where
  -- A segment's identifier is derived from its conversation and its index; elsewhere the two
  -- identifiers are one.
  abbrev pub Identified : CollectionType → NormalResult → Type 0
  Identified conversations item =
      (n : ℕ) × (item.segment_index ≡ int (pos n)) × (item.object_id ≡ uuid5 item.canonical_id n)
  Identified _ item = item.canonical_id ≡ item.object_id

  pub record IsScanned (kind : CollectionType) (s : Scan) : Type 0 where
    pub distinct : nodup (object_ids s.normalized) ≡ true
    pub seen :
        (x : Text)
        → contains x (object_ids s.normalized) ≡ true
        → contains x s.seen_object_ids ≡ true
    pub identified : All (Identified kind) s.normalized

  object_ids-append :
      (items : List NormalResult) (item : NormalResult)
      → object_ids (items ++ item ∷ []) ≡ object_ids items ++ item.object_id ∷ []
  object_ids-append [] item = refl
  object_ids-append (x ∷ items) item = ap (◌∷◌ x.object_id) (object_ids-append items item)

  segment_number-Identified :
      (item : NormalResult) (n : ℕ)
      → segment_number as_text uuid5 item ≡ some n
      → Identified conversations item
  unfolding segment_number
  segment_number-Identified item n h =
      (n, ground arith, ground (arith, eq_iff item.object_id (uuid5 item.canonical_id n)))

  module _ (kind : CollectionType) (item : NormalResult) (s : Scan) (inv : IsScanned kind s) where
    abbrev marked : Scan
    marked = record s { seen_object_ids = item.object_id ∷ s.seen_object_ids }

    appended-IsScanned :
        (s' : Scan)
        → s'.normalized ≡ s.normalized ++ item ∷ []
        → s'.seen_object_ids ≡ item.object_id ∷ s.seen_object_ids
        → contains item.object_id s.seen_object_ids ≡ false
        → Identified kind item
        → IsScanned kind s'
    unfolding contains
    appended-IsScanned s' n o f i = record {
      distinct =
          rw (n, object_ids-append s.normalized item)
            (nodup-append item.object_id (object_ids s.normalized) inv.distinct
              (ground (arith, inv.seen item.object_id)));
      seen = λ x.
          rw (n, o, object_ids-append s.normalized item)
            (ground
              (arith, inv.seen x, contains-append x item.object_id (object_ids s.normalized)));
      identified =
          rw n (All-append (Identified kind) s.normalized (item ∷ []) inv.identified (i, tt));
    }

    same-IsScanned :
        (s' : Scan)
        → s'.normalized ≡ s.normalized
        → ((x : Text) → contains x s.seen_object_ids ≡ true → contains x s'.seen_object_ids ≡ true)
        → IsScanned kind s'
    same-IsScanned s' n o = record {
      distinct = rw n inv.distinct;
      seen = λ x. rw n (λ h. o x (inv.seen x h));
      identified = rw n inv.identified;
    }

  scan_segment-IsScanned :
      (item : NormalResult) (n : ℕ) (s : Scan)
      → IsScanned conversations s
      → contains item.object_id s.seen_object_ids ≡ false
      → Identified conversations item
      → IsScanned conversations (
          scan_segment as_text uuid5 item n
            (record s { seen_object_ids = item.object_id ∷ s.seen_object_ids }))
  unfolding scan_segment append_result quarantine_conversation contains indices_of
  scan_segment-IsScanned item n s inv f i =
      elim (Option-cases (lookup n (indices_of as_text uuid5 item.canonical_id s))) [
        | inl e ↦
            rw (e, scan_segment, indices_of)
              (appended-IsScanned conversations item s inv _ refl refl f i)
        | inr (x, e) ↦ elim (Bool-cases (x == item.object_id)) [
          | inl g ↦
              rw (e, g, scan_segment, indices_of)
                (appended-IsScanned conversations item s inv _ refl refl f i)
          | inr g ↦
              rw (e, g, scan_segment, indices_of)
                (same-IsScanned conversations item s inv _ refl (λ y h. ground arith))
        ]
      ]

  scan_new-IsScanned :
      (kind : CollectionType) (item : NormalResult) (s : Scan)
      → IsScanned kind s
      → contains item.object_id s.seen_object_ids ≡ false
      → IsScanned kind (
          scan_new as_text uuid5 kind item
            (record s { seen_object_ids = item.object_id ∷ s.seen_object_ids }))
  unfolding scan_new append_result quarantine_object quarantine_conversation contains
  scan_new-IsScanned conversations item s inv f =
      elim (Option-cases (segment_number as_text uuid5 item)) [
        | inl e ↦
            rw (e, scan_new) (same-IsScanned conversations item s inv _ refl (λ x h. ground arith))
        | inr (n, e) ↦
            rw (e, scan_new)
              (scan_segment-IsScanned item n s inv f (segment_number-Identified item n e))
      ]
  scan_new-IsScanned knowledge_facts item s inv f =
      elim (Bool-cases (item.canonical_id == item.object_id)) [
        | inl e ↦ rw e (
            appended-IsScanned knowledge_facts item s inv _ refl refl f
              (ground (arith, eq_iff item.canonical_id item.object_id)))
        | inr e ↦ rw e (same-IsScanned knowledge_facts item s inv _ refl (λ x h. ground arith))
      ]
  scan_new-IsScanned policy item s inv f = elim (Bool-cases (item.canonical_id == item.object_id)) [
    | inl e ↦ rw e (
        appended-IsScanned policy item s inv _ refl refl f
          (ground (arith, eq_iff item.canonical_id item.object_id)))
    | inr e ↦ rw e (same-IsScanned policy item s inv _ refl (λ x h. ground arith))
  ]

  scan_duplicate-same :
      (kind : CollectionType) (item : NormalResult) (s : Scan)
      → ((scan_duplicate as_text uuid5 kind item s).normalized ≡ s.normalized)
        × ((scan_duplicate as_text uuid5 kind item s).seen_object_ids ≡ s.seen_object_ids)
  unfolding scan_duplicate quarantine_object
  scan_duplicate-same conversations item s = (refl, refl)
  scan_duplicate-same knowledge_facts item s = (refl, refl)
  scan_duplicate-same policy item s = (refl, refl)

  scan_invalid-same :
      (kind : CollectionType) (r : SearchResult) (s : Scan)
      → ((scan_invalid as_text uuid5 kind r s).normalized ≡ s.normalized)
        × ((scan_invalid as_text uuid5 kind r s).seen_object_ids ≡ s.seen_object_ids)
  unfolding scan_invalid quarantine_conversation
  scan_invalid-same kind r s = ground arith

  kept-IsScanned :
      (kind : CollectionType) (s s' : Scan)
      → (s'.normalized ≡ s.normalized) × (s'.seen_object_ids ≡ s.seen_object_ids)
      → IsScanned kind s
      → IsScanned kind s'
  kept-IsScanned kind s s' (n, o) inv = record {
    distinct = rw n inv.distinct;
    seen = λ x. rw (n, o) (inv.seen x);
    identified = rw n inv.identified;
  }

  scan_valid-IsScanned :
      (kind : CollectionType) (item : NormalResult) (s : Scan)
      → IsScanned kind s
      → IsScanned kind (scan_valid as_text uuid5 kind item s)
  unfolding scan_valid
  scan_valid-IsScanned kind item s inv =
      elim (Bool-cases (contains item.object_id s.seen_object_ids)) [
        | inr f ↦ rw f (scan_new-IsScanned kind item s inv f)
        | inl t ↦ rw t (kept-IsScanned kind s _ (scan_duplicate-same kind item s) inv)
      ]

  scan_result-IsScanned :
      (kind : CollectionType) (r : RawResult) (s : Scan)
      → IsScanned kind s
      → IsScanned kind (scan_result as_text uuid5 kind r s)
  unfolding scan_result
  scan_result-IsScanned kind malformed s inv = inv
  scan_result-IsScanned kind (result r) s inv = elim (Result-cases (checked_fields r)) [
    | inl (item, e) ↦ rw (e, scan_result) (scan_valid-IsScanned kind item s inv)
    | inr (x, e) ↦ rw (e, scan_result) (kept-IsScanned kind s _ (scan_invalid-same kind r s) inv)
  ]

  pub scan_results-IsScanned :
      (kind : CollectionType) (rs : List RawResult) (s : Scan)
      → IsScanned kind s
      → IsScanned kind (scan_results as_text uuid5 kind rs s)
  unfolding scan_results
  scan_results-IsScanned kind [] s inv = inv
  scan_results-IsScanned kind (r ∷ rs) s inv =
      scan_results-IsScanned kind rs (scan_result as_text uuid5 kind r s)
        (scan_result-IsScanned kind r s inv)

  pub empty_scan-IsScanned : (kind : CollectionType) → IsScanned kind empty_scan
  unfolding nodup contains
  empty_scan-IsScanned kind = record {
    distinct = refl;
    seen = λ x h. ground arith;
    identified = tt;
  }
