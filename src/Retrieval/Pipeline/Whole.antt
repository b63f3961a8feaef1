-- ===== src/Retrieval/Pipeline/Whole.antt =====
-- `retrieve` of backend/rag/retrieval.py as a whole.
use multi_tenant_rag_applica.Prelude.{
  ◌≤◌, ◌≡◌, sym, ◌∙◌, Bool, true, Option, some, List, length, nat_eq, list_eq, nodup, Option-cases,
  inl, inr, arith,
}
use mathlib.Core.Path.{subst}
use multi_tenant_rag_applica.Python.Text.{Text}
use multi_tenant_rag_applica.Python.Object.{Object}
use multi_tenant_rag_applica.Python.Exec.{Result, ok, bind-eq-ok, ok_injective}
use multi_tenant_rag_applica.Config.{CollectionType}
use multi_tenant_rag_applica.Retrieval.{required_text, FinalResult}
use multi_tenant_rag_applica.Retrieval.Floats.{Floats}
use multi_tenant_rag_applica.Retrieval.Ranking.{Ranked}
use multi_tenant_rag_applica.Retrieval.Ranking.Scores.{ranked_ids}
use multi_tenant_rag_applica.Retrieval.Hydration.{HydrationRequest, RawHydrated, hydrate_mmr_head}
use multi_tenant_rag_applica.Retrieval.Pipeline.{
  collection_of, Services, provided, adaptive_pool, presented, known_collection, multi_vector,
  retrieve,
}
use multi_tenant_rag_applica.Retrieval.Pipeline.Distinct.{adaptive_pool-nodup}
use multi_tenant_rag_applica.Retrieval.Pipeline.Presented.{
  result_ids, FitsBudget, presented-hydrated,
}

module _ (f : Floats) (s : Services f.Float) where
  known_collection-eq :
      (t : Text) (kind : CollectionType)
      → known_collection f s t ≡ ok kind
      → collection_of t ≡ some kind
  unfolding known_collection
  known_collection-eq t kind h = elim (Option-cases (collection_of t)) [
    | inl e ↦ absurd (ground arith)
    | inr (k, e) ↦ ground arith
  ]

  hydrated_first :
      (hydrate : List HydrationRequest → Result (Option (List RawHydrated))) (kind : CollectionType)
      (candidates : List (Ranked f.Float)) (results : List (FinalResult f.Float))
      → presented f s hydrate kind candidates ≡ ok results
      → (head : List (Ranked f.Float) × Bool) × (hydrate_mmr_head f hydrate candidates kind
            s.vector_dimension
          ≡ ok head)
  unfolding presented
  hydrated_first hydrate kind candidates results h =
      let (head, a, h₁) =
        bind-eq-ok (hydrate_mmr_head f hydrate candidates kind s.vector_dimension) _ h in
      (head, a)

  presented-ok :
      (hydrate : List HydrationRequest → Result (Option (List RawHydrated))) (kind : CollectionType)
      (candidates : List (Ranked f.Float)) (results : List (FinalResult f.Float))
      → nodup (ranked_ids candidates) ≡ true
      → presented f s hydrate kind candidates ≡ ok results
      → (nodup (result_ids results) ≡ true)
        × (length results ≤ (s.config kind).final_count)
        × FitsBudget f s kind results
  presented-ok hydrate kind candidates results n h =
      let (head, a) = hydrated_first hydrate kind candidates results h in
      elim (presented-hydrated f s hydrate kind candidates head.0 head.1 a) [
        | inr (x, e, other, u) ↦ absurd (ground (arith, e, h))
        | inl (rs, e, w, l, t) ↦
            let same : rs ≡ results = ok_injective (sym e ∙ h) in
            subst
              (λ r.
                (nodup (result_ids r) ≡ true)
                × (length r ≤ (s.config kind).final_count)
                × FitsBudget f s kind r)
              same (w.distinct n, l, t)
      ]

-- A retrieval that does not raise is of a known collection; its results are distinct, no more than
-- the configured number, and where the collection has a budget their context is within it.
pub retrieve-FitsBudget :
    (f : Floats) (s : Services f.Float) (query_text query_vector : Object) (collection_type : Text)
    (results : List (FinalResult f.Float))
    → retrieve f s query_text query_vector collection_type ≡ ok results
    → (kind : CollectionType) × (collection_of collection_type ≡ some kind)
      × (nodup (result_ids results) ≡ true)
      × (length results ≤ (s.config kind).final_count)
      × FitsBudget f s kind results
unfolding retrieve
retrieve-FitsBudget f s query_text query_vector collection_type results h =
    let (query, a, h₁) = bind-eq-ok (required_text query_text) _ h in
    let (rows, b, h₂) = bind-eq-ok (multi_vector f s query_vector) _ h₁ in
    let (kind, c, h₃) = bind-eq-ok (known_collection f s collection_type) _ h₂ in
    let (search, d, h₄) = bind-eq-ok (provided f s s.hybrid_search) _ h₃ in
    let (hydrate, e, h₅) = bind-eq-ok (provided f s s.hydrate) _ h₄ in
    let (found, g, h₆) = bind-eq-ok (search query rows (s.config kind).candidate_count) _ h₅ in
    let (pool, i, h₇) = bind-eq-ok (adaptive_pool f s kind query found) _ h₆ in
    let once = adaptive_pool-nodup f s kind query found pool i in
    let (n, l, t) = presented-ok f s hydrate kind pool results once h₇ in
    (kind, known_collection-eq f s collection_type kind c, n, l, t)
