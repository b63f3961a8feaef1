-- ===== src/Tests/Retrieving.antt =====
-- The token budget of backend/rag/retrieval.py, with one token for each character.
use multi_tenant_rag_applica.Prelude.{ℕ, ◌≡◌, ◌⊎◌, refl, some, List, [], ◌∷◌, length, take}
use multi_tenant_rag_applica.Python.Text.{Text, text, strip, strip_right, strip_left, is_space}
use multi_tenant_rag_applica.Python.Object.{str}
use multi_tenant_rag_applica.Python.Exec.{Result, Error, ok, err, value_error, traverse}
use multi_tenant_rag_applica.Config.{knowledge_facts}
use multi_tenant_rag_applica.Retrieval.{Candidate, FinalResult, final_results, budget_results}
use multi_tenant_rag_applica.Retrieval.Budget.{IsLongest, IsRaised, budget_results-final_results}

abbrev candidates : List (Candidate ℕ)
candidates =
    record { object_id = str (text "a"); raw_text = str (text "first"); rerank_score = 9 }
    ∷ record { object_id = str (text "b"); raw_text = str (text "second"); rerank_score = 5 }
    ∷ []

abbrev results : List (FinalResult ℕ)
results =
    record { object_id = text "a"; raw_text = text "first"; rerank_score = some 9 }
    ∷ record { object_id = text "b"; raw_text = text "second"; rerank_score = some 5 }
    ∷ []

abbrev count_of : Text → Result ℕ
count_of t = ok (length t)

-- Two line feeds stand between the two.
all_fit : budget_results count_of 13 results ≡ ok results
unfolding budget_results traverse strip strip_right strip_left is_space
all_fit = refl

one_fits : budget_results count_of 12 results ≡ ok (take 1 results)
unfolding budget_results traverse strip strip_right strip_left is_space
one_fits = refl

budget_results-final_results_example :
    ((kept : ℕ) × (budget_results count_of 12 results ≡ ok (take kept results))
      × IsLongest count_of 12 (length results) kept results)
    ⊎ ((x : Error) × (budget_results count_of 12 results ≡ err x)
        × IsRaised count_of 12 (length results) x results)
unfolding final_results traverse strip strip_right strip_left is_space
budget_results-final_results_example =
    budget_results-final_results count_of 12 knowledge_facts candidates results refl

-- A tokenizer that does not take a text raises.
not_counted : budget_results (λ t. err value_error) 12 results ≡ err value_error
unfolding budget_results traverse strip strip_right strip_left is_space
not_counted = refl
