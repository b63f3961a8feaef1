-- ===== src/Retrieval.antt =====
-- backend/rag/retrieval.py: the end of the retrieval, from the selected candidates to the results
-- that fit the token budget. Scores `S` and the tokenizer are parameters.
pub mod Budget
pub mod Floats
pub mod Ranking
pub mod Diversity
pub mod Hydration
pub mod Pipeline
pub mod Candidates
use multi_tenant_rag_applica.Prelude.{
  ℕ, zero, suc, Bool, true, false, not, Option, none, some, List, [], ◌∷◌, ◌++◌, map, leb, length,
  take, if◌then◌else◌,
}
use multi_tenant_rag_applica.Python.Text.{Text, text, strip, is_empty}
use multi_tenant_rag_applica.Python.Object.{Object, str}
use multi_tenant_rag_applica.Python.Exec.{
  Result, ok, err, type_error, value_error, bind, guard, traverse,
}
use multi_tenant_rag_applica.Config.{CollectionType, conversations, knowledge_facts, policy}

-- What the end of the retrieval reads of a candidate, with `None` for a missing key.
pub record Candidate (S : Type 0) : Type 0 where
  pub object_id : Object
  pub raw_text : Object
  pub rerank_score : S

-- A result of a conversation has no score.
pub record FinalResult (S : Type 0) : Type 0 where
  pub object_id : Text
  pub raw_text : Text
  pub rerank_score : Option S

unfoldable pub required_text : Object → Result Text
required_text (str value) = bind (guard (not (is_empty (strip value))) value_error) λ _. ok value
required_text _ = err type_error

-- The separator of the items of a context.
abbrev pub context_separator : Text
context_separator = text "\n\n"

module _ {S : Type 0} where
  unfoldable pub final_score : CollectionType → S → Option S
  final_score conversations s = none
  final_score knowledge_facts s = some s
  final_score policy s = some s

  unfoldable pub final_result : CollectionType → Candidate S → Result (FinalResult S)
  unfolding required_text final_score
  final_result collection_type item = bind (required_text item.object_id) λ object_id.
      bind (required_text item.raw_text) λ raw_text. ok (record {
        object_id = object_id;
        raw_text = raw_text;
        rerank_score = final_score collection_type item.rerank_score;
      })

  unfoldable pub final_results : List (Candidate S) → CollectionType → Result (List (FinalResult S))
  unfolding final_result
  final_results selected collection_type = traverse (final_result collection_type) selected

  -- `_CONTEXT_SEPARATOR.join(item["raw_text"] for item in selected)`
  unfoldable pub context : List (FinalResult S) → Text
  context [] = []
  context (item ∷ []) = item.raw_text
  context (item ∷ items) = item.raw_text ++ (context_separator ++ context items)

  unfoldable pub copied_result : FinalResult S → Result (FinalResult S)
  unfolding required_text
  copied_result result =
      bind (required_text (str result.raw_text))
        λ raw_text. ok (record result { raw_text = raw_text })

  -- The tokenizer may raise: `token_count` is the length of what `encode` returns.
  module _ (token_count : Text → Result ℕ) (budget : ℕ) where
    -- The loop that drops the last result, with the first `count` of them left.
    unfoldable pub fitting : ℕ → List (FinalResult S) → Result (List (FinalResult S))
    unfolding context
    fitting zero results = ok []
    fitting (suc count) results =
        let selected = take (suc count) results in
        let shorter = fitting count results in
        bind (token_count (context selected))
          λ tokens. if leb tokens budget then ok selected else shorter

    unfoldable pub budget_results : List (FinalResult S) → Result (List (FinalResult S))
    unfolding copied_result fitting
    budget_results results =
        bind (traverse copied_result results) λ selected. fitting (length selected) selected
