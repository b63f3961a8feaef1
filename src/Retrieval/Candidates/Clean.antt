-- ===== src/Retrieval/Candidates/Clean.antt =====
-- The candidates that `_normalized_candidates` of backend/rag/retrieval.py returns.
use multi_tenant_rag_applica.Prelude.{
  ℕ, ◌≡◌, refl, true, some, List, [], ◌∷◌, arith, nat_eq, list_eq, contains, nodup, All, Bool-cases,
  inl, inr,
}
use multi_tenant_rag_applica.Python.Text.{Text}
use multi_tenant_rag_applica.Python.Object.{Object}
use multi_tenant_rag_applica.Python.Exec.{ok}
use multi_tenant_rag_applica.Config.{CollectionType}
use multi_tenant_rag_applica.Retrieval.Candidates.{
  RawResult, NormalResult, Scan, empty_scan, scan_results, is_kept, kept_results,
  normalized_candidates,
}
use multi_tenant_rag_applica.Retrieval.Candidates.Scanned.{
  object_ids, Identified, scan_results-IsScanned, empty_scan-IsScanned,
}

module _ (as_text : Object → Text) (uuid5 : Text → ℕ → Text) where
  contains-kept_results :
      (s : Scan) (x : Text) (items : List NormalResult)
      → contains x (object_ids (kept_results as_text uuid5 s items)) ≡ true
      → contains x (object_ids items) ≡ true
  unfolding kept_results contains
  contains-kept_results s x [] h = h
  contains-kept_results s x (item ∷ items) h = ground (arith, contains-kept_results s x items)

  nodup-kept_results :
      (s : Scan) (items : List NormalResult)
      → nodup (object_ids items) ≡ true
      → nodup (object_ids (kept_results as_text uuid5 s items)) ≡ true
  unfolding kept_results nodup
  nodup-kept_results s [] h = refl
  nodup-kept_results s (item ∷ items) h =
      ground (arith, nodup-kept_results s items, contains-kept_results s item.object_id items)

  pub All-kept_results {κ} :
      (P : NormalResult → Type κ) (s : Scan) (items : List NormalResult)
      → All P items
      → All
          (λ item. P item × (is_kept as_text uuid5 s item ≡ true))
          (kept_results as_text uuid5 s items)
  unfolding kept_results
  All-kept_results P s [] h = tt
  All-kept_results P s (item ∷ items) h = elim (Bool-cases (is_kept as_text uuid5 s item)) [
    | inl e ↦ rw e ((h.0, e), All-kept_results P s items h.1)
    | inr e ↦ rw e (All-kept_results P s items h.1)
  ]

  All-fst {κ μ} :
      (P : NormalResult → Type κ) (Q : NormalResult → Type μ) (items : List NormalResult)
      → All (λ item. P item × Q item) items
      → All P items
  All-fst P Q [] h = tt
  All-fst P Q (item ∷ items) h = (h.0.0, All-fst P Q items h.1)

-- The candidates have distinct object identifiers. A segment of a conversation has the identifier
-- that is derived from its conversation and its index; elsewhere the two identifiers are one.
pub normalized_candidates-Identified :
    (as_text : Object → Text) (uuid5 : Text → ℕ → Text) (kind : CollectionType)
    (results : List RawResult) (candidates : List NormalResult)
    → normalized_candidates as_text uuid5 (some results) kind ≡ ok candidates
    → (nodup (object_ids candidates) ≡ true) × All (Identified as_text uuid5 kind) candidates
unfolding normalized_candidates
normalized_candidates-Identified as_text uuid5 kind results candidates h =
    let s : Scan = scan_results as_text uuid5 kind results empty_scan in
    let inv =
      scan_results-IsScanned as_text uuid5 kind results empty_scan
        (empty_scan-IsScanned as_text uuid5 kind) in
    let same : kept_results as_text uuid5 s s.normalized ≡ candidates = ground arith in
    rw (← same) (
      nodup-kept_results as_text uuid5 s s.normalized inv.distinct,
      All-fst as_text uuid5 _ _ _ (
          All-kept_results as_text uuid5 (Identified as_text uuid5 kind) s s.normalized
            inv.identified),
    )
