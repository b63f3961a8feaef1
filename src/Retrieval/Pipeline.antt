-- ===== src/Retrieval/Pipeline.antt =====
-- `retrieve` of backend/rag/retrieval.py: hybrid search, reranking, the adaptive cut, hydration,
-- diversity and the token budget. Timings and diagnostics are left out.
pub mod Distinct
pub mod Presented
pub mod Whole
use multi_tenant_rag_applica.Prelude.{
  ℕ, Bool, true, false, not, Option, none, some, List, [], ◌∷◌, take, all, nat_beq, length,
  if◌then◌else◌, ◌==◌, nat_eq, list_eq,
}
use multi_tenant_rag_applica.Python.Text.{Text, is_empty}
use multi_tenant_rag_applica.Python.Object.{Object, str, list, tuple, elements}
use multi_tenant_rag_applica.Python.Exec.{
  Result, ok, err, type_error, value_error, bind, guard, traverse,
}
use multi_tenant_rag_applica.Config.{
  CollectionType, conversations, knowledge_facts, policy, collection_name,
}
use multi_tenant_rag_applica.Retrieval.{
  required_text, Candidate, FinalResult, final_results, budget_results,
}
use multi_tenant_rag_applica.Retrieval.Floats.{Floats}
use multi_tenant_rag_applica.Retrieval.Candidates.{RawResult, NormalResult, normalized_candidates}
use multi_tenant_rag_applica.Retrieval.Ranking.{
  Ranked, RetrievalConfig, RawRank, cross_encoder, collapse_conversations, eligible_candidates,
  adaptive_k,
}
use multi_tenant_rag_applica.Retrieval.Diversity.{mmr}
use multi_tenant_rag_applica.Retrieval.Hydration.{
  HydrationRequest, RawHydrated, vector, hydrate_mmr_head, optional_text,
}

-- `_COLLECTION_CONFIGS`, by the text itself: neither case nor space is changed.
unfoldable pub collection_of : Text → Option CollectionType
unfolding collection_name
collection_of t =
    if t == collection_name conversations
    then some conversations
    else if t == collection_name knowledge_facts
    then some knowledge_facts
    else if t == collection_name policy
    then some policy
    else none

-- The collection's client, where `none` stands for a method that it has not got, the reranker and
-- the tokenizer of the runtime, and the configuration.
pub record Services (F : Type 0) : Type 0 where
  pub hybrid_search : Option (Text → List (List F) → ℕ → Result (Option (List RawResult)))
  pub hydrate : Option (List HydrationRequest → Result (Option (List RawHydrated)))
  pub rerank : Text → List Text → Result (Option (List RawRank))
  pub token_count : Text → Result ℕ
  pub config : CollectionType → RetrievalConfig F
  pub knowledge_tokens : ℕ
  pub policy_tokens : ℕ
  pub policy_floor : F
  pub vector_dimension : ℕ
  pub as_text : Object → Text
  pub uuid5 : Text → ℕ → Text

module _ (f : Floats) (s : Services f.Float) where
  unfoldable pub same_length : List (List f.Float) → Bool
  same_length [] = true
  same_length (row ∷ rows) = all (λ r. nat_beq (length r) (length row)) rows

  unfoldable pub vector_rows : List Object → Result (List (List f.Float))
  unfolding vector same_length
  vector_rows values = bind (traverse (vector f) values) λ rows.
      bind (guard (not (is_empty rows)) value_error)
        λ _. bind (guard (same_length rows) value_error) λ _. ok rows

  -- `_multi_vector`
  unfoldable pub multi_vector : Object → Result (List (List f.Float))
  unfolding vector_rows
  multi_vector (list xs) = vector_rows (elements xs)
  multi_vector (tuple xs) = vector_rows (elements xs)
  multi_vector _ = err type_error

  -- A method that the client has not got.
  unfoldable pub provided : {A : Type 0} → Option A → Result A
  provided none = err type_error
  provided (some a) = ok a

  -- Only the conversations are collapsed.
  unfoldable pub regrouped : CollectionType → List (Ranked f.Float) → Result (List (Ranked f.Float))
  unfolding collapse_conversations
  regrouped conversations reranked =
      collapse_conversations f reranked (s.config conversations).candidate_count
  regrouped _ reranked = ok reranked

  -- From the hybrid search to the adaptive pool.
  unfoldable pub adaptive_pool :
      CollectionType → Text → Option (List RawResult) → Result (List (Ranked f.Float))
  unfolding normalized_candidates cross_encoder regrouped eligible_candidates adaptive_k
  adaptive_pool kind query found =
      bind (normalized_candidates s.as_text s.uuid5 found kind) λ candidates.
        bind (cross_encoder f s.rerank candidates query) λ reranked.
          bind (regrouped kind reranked) λ groups.
            let eligible = eligible_candidates f s.policy_floor groups (s.config kind) kind in
            bind (adaptive_k f eligible (s.config kind)) λ count. ok (take count eligible)

  -- The selection, which falls back to the order of the scores where a vector is unusable.
  unfoldable pub diverse :
      CollectionType → List (Ranked f.Float) × Bool → Result (List (Ranked f.Float))
  unfolding mmr
  diverse kind (pool, usable) =
      if usable
      then mmr f pool (s.config kind).final_count (s.config kind)
      else ok (take (s.config kind).final_count pool)

  unfoldable pub final_candidate : Ranked f.Float → Candidate f.Float
  unfolding optional_text
  final_candidate c = record {
    object_id = str c.object_id;
    raw_text = optional_text c.raw_text;
    rerank_score = c.rerank_score;
  }

  unfoldable pub final_candidates : List (Ranked f.Float) → List (Candidate f.Float)
  unfolding final_candidate
  final_candidates [] = []
  final_candidates (c ∷ cs) = final_candidate c ∷ final_candidates cs

  -- `_CONTEXT_BUDGETS`: the conversations have none.
  unfoldable pub budgeted :
      CollectionType → List (FinalResult f.Float) → Result (List (FinalResult f.Float))
  unfolding budget_results
  budgeted conversations results = ok results
  budgeted knowledge_facts results = budget_results s.token_count s.knowledge_tokens results
  budgeted policy results = budget_results s.token_count s.policy_tokens results

  -- From the adaptive pool to the results.
  unfoldable pub presented :
      (List HydrationRequest → Result (Option (List RawHydrated)))
      → CollectionType
      → List (Ranked f.Float)
      → Result (List (FinalResult f.Float))
  unfolding hydrate_mmr_head diverse final_candidates final_results budgeted
  presented hydrate kind pool =
      bind (hydrate_mmr_head f hydrate pool kind s.vector_dimension) λ head.
        bind (diverse kind head) λ selected.
          bind (final_results (final_candidates selected) kind) λ results. budgeted kind results

  unfoldable pub known_collection : Text → Result CollectionType
  unfolding collection_of
  known_collection t = elim (collection_of t) [ none ↦ err value_error | some kind ↦ ok kind ]

  unfoldable pub retrieve : Object → Object → Text → Result (List (FinalResult f.Float))
  unfolding required_text multi_vector known_collection provided adaptive_pool presented
  retrieve query_text query_vector collection_type = bind (required_text query_text) λ query.
      bind (multi_vector query_vector) λ rows. bind (known_collection collection_type) λ kind.
        bind (provided s.hybrid_search) λ search. bind (provided s.hydrate) λ hydrate.
          bind (search query rows (s.config kind).candidate_count)
            λ found. bind (adaptive_pool kind query found) λ pool. presented hydrate kind pool
