-- ===== src/Retrieval/Candidates/Grows.antt =====
-- Results only add to what `_normalized_candidates` of backend/rag/retrieval.py has seen or left out.
use multi_tenant_rag_applica.Prelude.{
  ℕ, ◌≡◌, ap, true, List, [], ◌∷◌, ◌++◌, arith, nat_eq, list_eq, contains, Bool-cases, Option-cases,
  inl, inr,
}
use multi_tenant_rag_applica.Python.Text.{Text}
use multi_tenant_rag_applica.Python.Object.{Object}
use multi_tenant_rag_applica.Python.Exec.{Error, ok, err, Result-cases}
use multi_tenant_rag_applica.Config.{CollectionType, conversations, knowledge_facts, policy}
use multi_tenant_rag_applica.Retrieval.Candidates.{
  SearchResult, RawResult, malformed, result, NormalResult, Scan, checked_fields, canonical_ids_of,
  segment_number, quarantine_object, quarantine_conversation, append_result, scan_invalid,
  scan_duplicate, scan_segment, scan_new, scan_valid, scan_result, scan_results,
}

abbrev Subset : List Text → List Text → Type 0
Subset xs ys = (x : Text) → contains x xs ≡ true → contains x ys ≡ true

-- What is seen or quarantined stays so.
pub record Grows (s s' : Scan) : Type 0 where
  pub seen : Subset s.seen_object_ids s'.seen_object_ids
  pub objects : Subset s.quarantined_object_ids s'.quarantined_object_ids
  pub groups : Subset s.quarantined_conversations s'.quarantined_conversations

Grows-refl : (s : Scan) → Grows s s
Grows-refl s = record { seen = λ x h. h; objects = λ x h. h; groups = λ x h. h }

Grows-trans : (r s t : Scan) → Grows r s → Grows s t → Grows r t
Grows-trans r s t g h = record {
  seen = λ x i. h.seen x (g.seen x i);
  objects = λ x i. h.objects x (g.objects x i);
  groups = λ x i. h.groups x (g.groups x i);
}

pub contains-behind :
    (x : Text) (xs ys : List Text) → contains x ys ≡ true → contains x (xs ++ ys) ≡ true
unfolding contains
contains-behind x [] ys h = h
contains-behind x (y ∷ xs) ys h = ground (arith, contains-behind x xs ys h)

module _ (as_text : Object → Text) (uuid5 : Text → ℕ → Text) where
  scan_invalid-Grows :
      (kind : CollectionType) (r : SearchResult) (s : Scan)
      → Grows s (scan_invalid as_text uuid5 kind r s)
  unfolding scan_invalid quarantine_conversation contains
  scan_invalid-Grows kind r s = record {
    seen = λ x h. ground arith;
    objects = λ x h. ground arith;
    groups = λ x h. ground arith;
  }

  pub scan_duplicate-Grows :
      (kind : CollectionType) (item : NormalResult) (s : Scan)
      → Grows s (scan_duplicate as_text uuid5 kind item s)
  unfolding scan_duplicate quarantine_object contains
  scan_duplicate-Grows kind item s = record {
    seen = λ x h. ground arith;
    objects = λ x h. ground arith;
    groups = λ x h. ground (
      arith,
      contains-behind x (canonical_ids_of item.object_id s.normalized)
          (item.canonical_id ∷ s.quarantined_conversations),
    );
  }

  scan_segment-Grows :
      (item : NormalResult) (n : ℕ) (s : Scan) → Grows s (scan_segment as_text uuid5 item n s)
  unfolding scan_segment append_result quarantine_conversation contains
  scan_segment-Grows item n s = record {
    seen = λ x h. ground arith;
    objects = λ x h. ground arith;
    groups = λ x h. ground arith;
  }

  pub scan_new-Grows :
      (kind : CollectionType) (item : NormalResult) (s : Scan)
      → Grows s (scan_new as_text uuid5 kind item s)
  unfolding scan_new append_result quarantine_object quarantine_conversation contains
  scan_new-Grows conversations item s = elim (Option-cases (segment_number as_text uuid5 item)) [
    | inl e ↦ record {
      seen = λ x h. ground arith;
      objects = λ x h. ground arith;
      groups = λ x h. ground arith;
    }
    | inr (n, e) ↦ rw (e, scan_new) (scan_segment-Grows item n s)
  ]
  scan_new-Grows knowledge_facts item s = record {
    seen = λ x h. ground arith;
    objects = λ x h. ground arith;
    groups = λ x h. ground arith;
  }
  scan_new-Grows policy item s = record {
    seen = λ x h. ground arith;
    objects = λ x h. ground arith;
    groups = λ x h. ground arith;
  }

  pub scan_valid-Grows :
      (kind : CollectionType) (item : NormalResult) (s : Scan)
      → Grows s (scan_valid as_text uuid5 kind item s)
  unfolding scan_valid contains
  scan_valid-Grows kind item s = elim (Bool-cases (contains item.object_id s.seen_object_ids)) [
    | inl e ↦ rw e (scan_duplicate-Grows kind item s)
    | inr e ↦
        let marked : Scan = record s { seen_object_ids = item.object_id ∷ s.seen_object_ids } in
        rw e (
          Grows-trans s marked (scan_new as_text uuid5 kind item marked)
            (record { seen = λ x h. ground arith; objects = λ x h. h; groups = λ x h. h })
            (scan_new-Grows kind item marked))
  ]

  pub scan_result-Grows :
      (kind : CollectionType) (r : RawResult) (s : Scan)
      → Grows s (scan_result as_text uuid5 kind r s)
  unfolding scan_result
  scan_result-Grows kind malformed s = Grows-refl s
  scan_result-Grows kind (result r) s = elim (Result-cases (checked_fields r)) [
    | inl (item, e) ↦ rw (e, scan_result) (scan_valid-Grows kind item s)
    | inr (x, e) ↦ rw (e, scan_result) (scan_invalid-Grows kind r s)
  ]

  pub scan_results-Grows :
      (kind : CollectionType) (rs : List RawResult) (s : Scan)
      → Grows s (scan_results as_text uuid5 kind rs s)
  unfolding scan_results
  scan_results-Grows kind [] s = Grows-refl s
  scan_results-Grows kind (r ∷ rs) s =
      Grows-trans s (scan_result as_text uuid5 kind r s)
        (scan_results as_text uuid5 kind (r ∷ rs) s) (scan_result-Grows kind r s)
        (scan_results-Grows kind rs (scan_result as_text uuid5 kind r s))

  pub scan_result-ok :
      (kind : CollectionType) (r : SearchResult) (item : NormalResult) (s : Scan)
      → checked_fields r ≡ ok item
      → scan_result as_text uuid5 kind (result r) s ≡ scan_valid as_text uuid5 kind item s
  unfolding scan_result
  scan_result-ok kind r item s e = rw (e, scan_result)

  pub scan_results-ok :
      (kind : CollectionType) (r : SearchResult) (rs : List RawResult) (item : NormalResult)
      (s : Scan)
      → checked_fields r ≡ ok item
      → scan_results as_text uuid5 kind (result r ∷ rs) s
        ≡ scan_results as_text uuid5 kind rs (scan_valid as_text uuid5 kind item s)
  unfolding scan_results
  scan_results-ok kind r rs item s e =
      ap (scan_results as_text uuid5 kind rs) (scan_result-ok kind r item s e)

  pub scan_result-err :
      (kind : CollectionType) (r : SearchResult) (x : Error) (s : Scan)
      → checked_fields r ≡ err x
      → scan_result as_text uuid5 kind (result r) s ≡ scan_invalid as_text uuid5 kind r s
  unfolding scan_result
  scan_result-err kind r x s e = rw (e, scan_result)
