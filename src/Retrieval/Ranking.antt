-- ===== src/Retrieval/Ranking.antt =====
-- backend/rag/retrieval.py: the scores of the reranker, the best segment of each conversation, the
-- relevance floor and the cut at the largest gap.
pub mod Scores
pub mod Collapse
pub mod Cut
pub mod Floor
pub mod Largest
use multi_tenant_rag_applica.Prelude.{
  ℕ, zero, suc, ◌+◌, Bool, true, false, ◌&&◌, ◌||◌, not, Option, none, some, List, [], ◌∷◌, ◌++◌,
  map, ltb, nat_beq, length, take, get_elem?, ◌==◌, nat_eq, list_eq, contains, if◌then◌else◌,
}
use multi_tenant_rag_applica.Python.Text.{Text}
use multi_tenant_rag_applica.Python.Object.{Object, bool, int, pos, negsuc, str}
use multi_tenant_rag_applica.Python.Exec.{Result, ok, err, type_error, value_error, bind, guard}
use multi_tenant_rag_applica.Python.Dict.{Dict, lookup, insert, values}
use multi_tenant_rag_applica.Python.Sorting.{sort_by, text_le}
use multi_tenant_rag_applica.Config.{CollectionType, conversations, knowledge_facts, policy}
use multi_tenant_rag_applica.Retrieval.{required_text}
use multi_tenant_rag_applica.Retrieval.Floats.{Floats}
use multi_tenant_rag_applica.Retrieval.Candidates.{NormalResult}

-- The dictionary of a candidate, with `none` for a key that it has not got yet.
pub record Ranked (F : Type 0) : Type 0 where
  pub object_id : Text
  pub canonical_id : Text
  pub retrieval_text : Text
  pub segment_index : Object
  pub rerank_score : F
  pub segment_id : Option Text
  pub raw_text : Option Text
  pub diversity_vector : Option (List F)

-- `RetrievalConfig`
pub record RetrievalConfig (F : Type 0) : Type 0 where
  pub candidate_count : ℕ
  pub candidate_ceiling : ℕ
  pub final_count : ℕ
  pub adaptive_relevance_floor : F
  pub adaptive_gap_threshold : F
  pub mmr_lambda : F

-- An element of what the reranker returns.
pub data RawRank : Type 0 where
  malformed : RawRank
  rank : Object → Object → RawRank

-- A number that `isinstance(value, int)` accepts and that is no `bool`, below `count`.
unfoldable pub checked_index : ℕ → Object → Result ℕ
checked_index count (int (pos n)) = bind (guard (ltb n count) value_error) λ _. ok n
checked_index count (int (negsuc n)) = err value_error
checked_index count _ = err type_error

-- `_segment_index`
unfoldable pub segment_index_of : Object → Result ℕ
segment_index_of (int (pos n)) = ok n
segment_index_of _ = err value_error

module _ (f : Floats) where
  -- `x >= y`
  unfoldable pub at_least : f.Float → f.Float → Bool
  at_least x y = f.is_less y x || f.is_equal x y

  unfoldable pub checked_score : Object → Result f.Float
  checked_score (bool b) = err type_error
  checked_score score =
      bind (f.to_float score) λ x. bind (guard (f.is_finite x) value_error) λ _. ok x

  unfoldable pub ranked : NormalResult → f.Float → Ranked f.Float
  ranked candidate score = record {
    object_id = candidate.object_id;
    canonical_id = candidate.canonical_id;
    retrieval_text = candidate.retrieval_text;
    segment_index = candidate.segment_index;
    rerank_score = score;
    segment_id = none;
    raw_text = none;
    diversity_vector = none;
  }

  -- The loop over the results of the reranker. The index is in range, so that the candidate is there.
  unfoldable pub selected_ranks :
      List NormalResult → List RawRank → List ℕ → Result (List (Ranked f.Float))
  unfolding checked_index checked_score ranked
  selected_ranks candidates [] used_indices = ok []
  selected_ranks candidates (malformed ∷ rest) used_indices = err type_error
  selected_ranks candidates (rank raw_index raw_score ∷ rest) used_indices =
      bind (checked_index (length candidates) raw_index) λ index.
        bind (guard (not (contains index used_indices)) value_error) λ _.
          bind (checked_score raw_score) λ score.
            bind (elim (get_elem? candidates index) [ none ↦ err value_error | some c ↦ ok c ])
              λ candidate.
                bind (selected_ranks candidates rest (index ∷ used_indices))
                  λ selected. ok (ranked candidate score ∷ selected)

  -- `(-a, x) <= (-b, y)`
  unfoldable pub precedes : Ranked f.Float → Ranked f.Float → Bool
  precedes a b =
      if f.is_equal a.rerank_score b.rerank_score
      then text_le a.object_id b.object_id
      else f.is_less b.rerank_score a.rerank_score

  -- The reranker may raise, and gives `none` for a value that is no sequence.
  unfoldable pub cross_encoder :
      (Text → List Text → Result (Option (List RawRank)))
      → List NormalResult
      → Text
      → Result (List (Ranked f.Float))
  unfolding selected_ranks precedes
  cross_encoder rerank [] query = ok []
  cross_encoder rerank (c ∷ cs) query =
      bind (rerank query (map (λ candidate. candidate.retrieval_text) (c ∷ cs))) λ answer.
        elim answer [
          | none ↦ err type_error
          | some raw_results ↦
              bind (guard (nat_beq (length raw_results) (length (c ∷ cs))) value_error) λ _.
                bind (selected_ranks (c ∷ cs) raw_results [])
                  λ selected. ok (sort_by precedes selected)
        ]

  -- `(-a, i, x) < (-b, j, y)`
  unfoldable pub is_better : Ranked f.Float → ℕ → Ranked f.Float → ℕ → Bool
  is_better a i b j =
      if f.is_equal a.rerank_score b.rerank_score
      then ltb i j || nat_beq i j && not (text_le b.object_id a.object_id)
      else f.is_less b.rerank_score a.rerank_score

  unfoldable pub select_better :
      Text
      → Ranked f.Float
      → Option (Ranked f.Float)
      → Dict Text (Ranked f.Float)
      → Result (Dict Text (Ranked f.Float))
  unfolding segment_index_of is_better
  select_better conversation_id candidate none selected =
      ok (insert conversation_id candidate selected)
  select_better conversation_id candidate (some current) selected =
      bind (segment_index_of candidate.segment_index) λ i.
        bind (segment_index_of current.segment_index) λ j. ok (
          if is_better candidate i current j
          then insert conversation_id candidate selected
          else selected)

  unfoldable pub select_best :
      List (Ranked f.Float) → Dict Text (Ranked f.Float) → Result (Dict Text (Ranked f.Float))
  unfolding required_text select_better
  select_best [] selected = ok selected
  select_best (candidate ∷ rest) selected =
      bind (required_text (str candidate.canonical_id)) λ conversation_id.
        bind (select_better conversation_id candidate (lookup conversation_id selected) selected)
          λ selected'. select_best rest selected'

  -- From here on a conversation is its own object.
  unfoldable pub collapsed : Text × Ranked f.Float → Ranked f.Float
  collapsed (conversation_id, candidate) = record candidate {
    segment_id = some candidate.object_id;
    object_id = conversation_id;
  }

  unfoldable pub collapse_conversations : List (Ranked f.Float) → ℕ → Result (List (Ranked f.Float))
  unfolding select_best collapsed precedes
  collapse_conversations candidates limit =
      bind (select_best candidates [])
        λ selected. ok (take limit (sort_by precedes (map collapsed selected)))

  unfoldable pub above_floor : f.Float → List (Ranked f.Float) → List (Ranked f.Float)
  unfolding at_least
  above_floor floor [] = []
  above_floor floor (candidate ∷ rest) =
      let kept = above_floor floor rest in
      if at_least candidate.rerank_score floor then candidate ∷ kept else kept

  -- The best policy result is rescued from an empty pool, above a floor of its own.
  unfoldable pub rescued : f.Float → List (Ranked f.Float) → List (Ranked f.Float)
  unfolding at_least
  rescued policy_floor [] = []
  rescued policy_floor (best ∷ rest) =
      if at_least best.rerank_score policy_floor then best ∷ [] else []

  -- `policy_floor` is `_POLICY_EMPTY_POOL_FLOOR`.
  unfoldable pub eligible_candidates :
      f.Float
      → List (Ranked f.Float)
      → RetrievalConfig f.Float
      → CollectionType
      → List (Ranked f.Float)
  unfolding above_floor rescued
  eligible_candidates policy_floor reranked config kind =
      elim (above_floor config.adaptive_relevance_floor reranked) [
        | [] ↦ (elim kind [ policy ↦ rescued policy_floor reranked | _ ↦ [] ])
        | best ∷ rest ↦ best ∷ rest
      ]

  unfoldable pub sigmoid_score : f.Float → f.Float
  unfolding at_least
  sigmoid_score score =
      let exponent = f.exponential score in
      if at_least score f.zero
      then f.divide f.one (f.add f.one (f.exponential (f.subtract f.zero score)))
      else f.divide exponent (f.add f.one exponent)

  unfoldable pub gaps_of : List f.Float → List f.Float
  gaps_of [] = []
  gaps_of (x ∷ []) = []
  gaps_of (x ∷ y ∷ rest) = f.subtract x y ∷ gaps_of (y ∷ rest)

  -- `max` of a list that begins with `best`: the first of the greatest.
  unfoldable pub largest_of : f.Float → List f.Float → f.Float
  largest_of best [] = best
  largest_of best (x ∷ xs) = largest_of (if f.is_less best x then x else best) xs

  -- `list.index`
  unfoldable pub index_of : f.Float → List f.Float → Option ℕ
  index_of x [] = none
  index_of x (y ∷ ys) =
      let rest = index_of x ys in
      if f.is_equal y x then some 0 else elim rest [ none ↦ none | some i ↦ some (suc i) ]

  unfoldable pub adaptive_k : List (Ranked f.Float) → RetrievalConfig f.Float → Result ℕ
  unfolding sigmoid_score gaps_of largest_of index_of
  adaptive_k [] config = ok 0
  adaptive_k (c ∷ cs) config =
      elim (gaps_of (map (λ candidate. sigmoid_score candidate.rerank_score) (c ∷ cs))) [
        | [] ↦ ok 1
        | gap ∷ gaps ↦
            let largest = largest_of gap gaps in
            let cut : Result ℕ = elim (index_of largest (gap ∷ gaps)) [
              | none ↦ err value_error
              | some i ↦ ok (suc i)
            ] in
            if f.is_less largest config.adaptive_gap_threshold then ok (length (c ∷ cs)) else cut
      ]
