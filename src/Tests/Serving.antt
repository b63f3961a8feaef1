-- ===== src/Tests/Serving.antt =====
-- `retrieve` of backend/rag/retrieval.py on one fact of the store.
use multi_tenant_rag_applica.Prelude.{
  ℕ, ◌≤◌, ◌≡◌, refl, Option, some, none, true, List, [], ◌∷◌, length, nodup, nat_eq, list_eq,
}
use multi_tenant_rag_applica.Python.Text.{Text, text}
use multi_tenant_rag_applica.Python.Object as Object
use multi_tenant_rag_applica.Python.Object.{Object, str, int, pos, list, cons, nil}
use multi_tenant_rag_applica.Python.Exec.{Result, ok, traverse}
use multi_tenant_rag_applica.Config.{CollectionType}
use multi_tenant_rag_applica.Retrieval.{FinalResult}
use multi_tenant_rag_applica.Retrieval.Candidates.{SearchResult, RawResult, result}
use multi_tenant_rag_applica.Retrieval.Ranking.{Ranked, RawRank, rank}
use multi_tenant_rag_applica.Retrieval.Hydration.{
  HydrationRequest, HydratedResult, RawHydrated, hydrated,
}
use multi_tenant_rag_applica.Retrieval.Pipeline.{Services, retrieve, collection_of}
use multi_tenant_rag_applica.Retrieval.Pipeline.Presented.{result_ids, FitsBudget}
use multi_tenant_rag_applica.Retrieval.Pipeline.Whole.{retrieve-FitsBudget}
use multi_tenant_rag_applica.Tests.Given.{id_1}
use multi_tenant_rag_applica.Tests.Candidates.{as_text, uuid5}
use multi_tenant_rag_applica.Tests.Ranking.{numbers, config}

abbrev fact : SearchResult
fact = record {
  object_id = str id_1;
  canonical_id = str id_1;
  retrieval_text = str (text "words");
  segment_index = Object.none;
}

abbrev vector_of_one : Object
vector_of_one = list (cons (int (pos 1)) nil)

abbrev hydrated_fact : HydratedResult
hydrated_fact = record {
  object_id = str id_1;
  canonical_id = str id_1;
  segment_index = Object.none;
  quarantine_reason = none;
  raw_text = str (text "words");
  diversity_vector = vector_of_one;
}

abbrev search : Text → List (List ℕ) → ℕ → Result (Option (List RawResult))
search query rows count = ok (some (result fact ∷ []))

abbrev hydrate : List HydrationRequest → Result (Option (List RawHydrated))
hydrate requests = ok (some (hydrated hydrated_fact ∷ []))

abbrev rerank : Text → List Text → Result (Option (List RawRank))
rerank query texts = ok (some (rank (int (pos 0)) (int (pos 7)) ∷ []))

abbrev services : Services ℕ
services = record {
  hybrid_search = some search;
  hydrate = some hydrate;
  rerank = rerank;
  token_count = λ t. ok (length t);
  config = λ kind. config;
  knowledge_tokens = 10;
  policy_tokens = 10;
  policy_floor = 1;
  vector_dimension = 1;
  as_text = as_text;
  uuid5 = uuid5;
}

abbrev one_result : List (FinalResult ℕ)
one_result = record { object_id = id_1; raw_text = text "words"; rerank_score = some 7 } ∷ []

retrieved :
    retrieve numbers services
      (str (text "q"))
      (list (cons vector_of_one nil))
      (text "knowledge_facts")
    ≡ ok one_result
unfolding retrieve multi_tenant_rag_applica.Python.Text.strip
    multi_tenant_rag_applica.Python.Text.strip_right multi_tenant_rag_applica.Python.Text.strip_left
    multi_tenant_rag_applica.Python.Text.is_space traverse Object.elements
    multi_tenant_rag_applica.Python.Uuid.uuid multi_tenant_rag_applica.Prelude.contains
    multi_tenant_rag_applica.Python.Sorting.sort_by
    multi_tenant_rag_applica.Python.Sorting.insert_by
retrieved = refl

retrieve-FitsBudget_example :
    (kind : CollectionType) × (collection_of (text "knowledge_facts") ≡ some kind)
    × (nodup (result_ids one_result) ≡ true)
    × (length one_result ≤ 1)
    × FitsBudget numbers services kind one_result
retrieve-FitsBudget_example =
    retrieve-FitsBudget numbers services (str (text "q")) (list (cons vector_of_one nil))
      (text "knowledge_facts") one_result retrieved

abbrev ranked_fact : Ranked ℕ
ranked_fact = record {
  object_id = id_1;
  canonical_id = id_1;
  retrieval_text = text "words";
  segment_index = Object.none;
  rerank_score = 7;
  segment_id = none;
  raw_text = none;
  diversity_vector = none;
}

abbrev hydrated_one : Ranked ℕ
hydrated_one = record ranked_fact {
  raw_text = some (text "words");
  diversity_vector = some (1 ∷ []);
}
