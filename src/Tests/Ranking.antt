-- ===== src/Tests/Ranking.antt =====
-- The ranking of backend/rag/retrieval.py, with numbers that stand for floats.
use multi_tenant_rag_applica.Prelude.{
  map, ℕ, zero, suc, ◌+◌, ◌-◌, ◌*◌, ◌/◌, ◌<◌, ◌≤◌, ◌≡◌, refl, sym, Option, some, none, true, false,
  List, [], ◌∷◌, length, All, nodup, arith, ltb, nat_beq, inl, inr, nat_eq, list_eq, Within, ◌⊎◌,
  eq_refl,
}
use multi_tenant_rag_applica.Python.Text.{Text, text}
use multi_tenant_rag_applica.Python.Object.{Object, int, pos}
use multi_tenant_rag_applica.Python.Exec.{Result, ok, err, type_error}
use multi_tenant_rag_applica.Python.Dict.{lookup, insert}
use multi_tenant_rag_applica.Config.{policy}
use multi_tenant_rag_applica.Retrieval.Floats.{Floats, IsOrdered}
use multi_tenant_rag_applica.Retrieval.Candidates.{NormalResult}
use multi_tenant_rag_applica.Retrieval.Candidates.Scanned.{object_ids}
use multi_tenant_rag_applica.Retrieval.Ranking.{
  Ranked, RetrievalConfig, RawRank, rank, cross_encoder, collapse_conversations,
  eligible_candidates, adaptive_k, sigmoid_score, gaps_of,
}
use multi_tenant_rag_applica.Retrieval.Ranking.Scores.{
  ranked_ids, IsFinite, AreInOrder, cross_encoder-IsSorted,
}
use multi_tenant_rag_applica.Retrieval.Ranking.Collapse.{collapse_conversations-nodup, IsSegmentOf}
use multi_tenant_rag_applica.Retrieval.Ranking.Cut.{adaptive_k-bounds, IsCut}
use multi_tenant_rag_applica.Retrieval.Ranking.Floor.{eligible_candidates-floor, IsEligible}
use multi_tenant_rag_applica.Retrieval.Diversity.{mmr}
use multi_tenant_rag_applica.Retrieval.Diversity.Selected.{IsUsable, mmr-Within}
use multi_tenant_rag_applica.Tests.Given.{id_1, id_2, id_3}

abbrev to_number : Object → Result ℕ
to_number (int (pos n)) = ok n
to_number _ = err type_error

abbrev pub numbers : Floats
numbers = record {
  Float = ℕ;
  zero = 0;
  one = 1;
  minus_infinity = 0;
  add = λ x y. x + y;
  subtract = λ x y. x - y;
  multiply = λ x y. x * y;
  divide = λ x y. x / y;
  square_root = λ x. x;
  exponential = λ x. x;
  is_less = ltb;
  is_equal = nat_beq;
  is_finite = λ x. true;
  to_float = to_number;
}

numbers-IsOrdered : IsOrdered numbers
numbers-IsOrdered = record {
  finite_number = λ x h. eq_refl x;
  ordered = λ x y h k. ground arith;
  equal_sym = λ x y. ground arith;
  less_irrefl = λ x. ground arith;
  less_trans = λ x y z h k. ground arith;
  equal_less = λ x y z h k. ground arith;
  less_equal = λ x y z h k. ground arith;
}

abbrev pub config : RetrievalConfig ℕ
config = record {
  candidate_count = 20;
  candidate_ceiling = 20;
  final_count = 1;
  adaptive_relevance_floor = 2;
  adaptive_gap_threshold = 1;
  mmr_lambda = 1;
}

abbrev normal : Text → NormalResult
normal object_id = record {
  object_id = object_id;
  canonical_id = id_1;
  retrieval_text = text "words";
  segment_index = int (pos 0);
}

abbrev scored : Text → ℕ → Ranked ℕ
scored object_id score = record {
  object_id = object_id;
  canonical_id = id_1;
  retrieval_text = text "words";
  segment_index = int (pos 0);
  rerank_score = score;
  segment_id = none;
  raw_text = none;
  diversity_vector = some (1 ∷ []);
}

abbrev unhydrated : Text → ℕ → Ranked ℕ
unhydrated object_id score = record (scored object_id score) { diversity_vector = none }

abbrev both : List NormalResult
both = normal id_2 ∷ normal id_3 ∷ []

abbrev rerank : Text → List Text → Result (Option (List RawRank))
rerank query texts =
    ok (some (rank (int (pos 0)) (int (pos 3)) ∷ rank (int (pos 1)) (int (pos 7)) ∷ []))

reranked :
    cross_encoder numbers rerank both (text "q") ≡ ok (unhydrated id_3 7 ∷ unhydrated id_2 3 ∷ [])
unfolding cross_encoder multi_tenant_rag_applica.Prelude.contains
    multi_tenant_rag_applica.Python.Sorting.sort_by
    multi_tenant_rag_applica.Python.Sorting.insert_by
reranked = refl

cross_encoder-IsSorted_example :
    Within (ranked_ids (unhydrated id_3 7 ∷ unhydrated id_2 3 ∷ [])) (object_ids both)
    × (2 ≡ length both)
    × All (IsFinite numbers) (unhydrated id_3 7 ∷ unhydrated id_2 3 ∷ [])
    × AreInOrder numbers (unhydrated id_3 7 ∷ unhydrated id_2 3 ∷ [])
unfolding nodup
cross_encoder-IsSorted_example =
    cross_encoder-IsSorted numbers rerank both (text "q")
      (unhydrated id_3 7 ∷ unhydrated id_2 3 ∷ []) numbers-IsOrdered refl reranked

abbrev grouped : Ranked ℕ
grouped = record (scored id_1 7) { segment_id = some id_3 }

collapsed_one :
    collapse_conversations numbers (scored id_2 3 ∷ scored id_3 7 ∷ []) 5 ≡ ok (grouped ∷ [])
unfolding collapse_conversations multi_tenant_rag_applica.Python.Text.strip
    multi_tenant_rag_applica.Python.Text.strip_right multi_tenant_rag_applica.Python.Text.strip_left
    multi_tenant_rag_applica.Python.Text.is_space lookup insert
    multi_tenant_rag_applica.Python.Sorting.sort_by
    multi_tenant_rag_applica.Python.Sorting.insert_by
collapsed_one = refl

collapse_conversations-nodup_example :
    (nodup (ranked_ids (grouped ∷ [])) ≡ true)
    × (1 ≤ 5)
    × All (IsSegmentOf numbers (scored id_2 3 ∷ scored id_3 7 ∷ [])) (grouped ∷ [])
collapse_conversations-nodup_example =
    collapse_conversations-nodup numbers (scored id_2 3 ∷ scored id_3 7 ∷ []) 5 (grouped ∷ [])
      collapsed_one

-- No gap is below a threshold of 0, and the first is cut.
abbrev strict : RetrievalConfig ℕ
strict = record config { adaptive_gap_threshold = 0 }

abbrev three : List (Ranked ℕ)
three = scored id_1 9 ∷ scored id_2 7 ∷ scored id_3 3 ∷ []

first_only : adaptive_k numbers three strict ≡ ok 1
unfolding adaptive_k
first_only = refl

adaptive_k-bounds_example :
    (k : ℕ) × (adaptive_k numbers three strict ≡ ok k)
    × (0 < k)
    × (k ≤ 3)
    × IsCut numbers 0 (map (λ candidate. sigmoid_score numbers candidate.rerank_score) three) k
unfolding gaps_of sigmoid_score
adaptive_k-bounds_example =
    adaptive_k-bounds numbers strict (scored id_1 9) (scored id_2 7 ∷ scored id_3 3 ∷ [])
      numbers-IsOrdered (refl, (refl, tt))

-- No policy has the floor of 2: the best of them is rescued, above a floor of 1.
rescued_one :
    eligible_candidates numbers 1 (scored id_2 1 ∷ scored id_3 0 ∷ []) config policy
    ≡ scored id_2 1 ∷ []
unfolding eligible_candidates
rescued_one = refl

eligible_candidates-floor_example :
    IsEligible numbers 2 1
      (scored id_2 1 ∷ scored id_3 0 ∷ [])
      policy
      (eligible_candidates numbers 1 (scored id_2 1 ∷ scored id_3 0 ∷ []) config policy)
eligible_candidates-floor_example =
    eligible_candidates-floor numbers 1 (scored id_2 1 ∷ scored id_3 0 ∷ []) config policy

usable : All (IsUsable numbers 1) (scored id_2 7 ∷ scored id_3 3 ∷ [])
unfolding multi_tenant_rag_applica.Retrieval.Diversity.at_most
    multi_tenant_rag_applica.Retrieval.Diversity.norm
usable = (
  (1 ∷ [], refl, record { sized = refl; inhabited = refl; nonzero = refl }),
  ((1 ∷ [], refl, record { sized = refl; inhabited = refl; nonzero = refl }), tt),
)

mmr-Within_example :
    (selected : List (Ranked ℕ)) × (mmr numbers (scored id_2 7 ∷ scored id_3 3 ∷ []) 1 config
      ≡ ok selected)
    × (length selected ≡ 1)
    × Within (ranked_ids selected) (id_2 ∷ id_3 ∷ [])
mmr-Within_example = mmr-Within numbers 1 (scored id_2 7 ∷ scored id_3 3 ∷ []) 1 config usable
