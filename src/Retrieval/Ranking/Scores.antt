-- ===== src/Retrieval/Ranking/Scores.antt =====
-- `_cross_encoder` of backend/rag/retrieval.py scores every candidate once, and sorts them.
use multi_tenant_rag_applica.Prelude.{
  ℕ, zero, suc, ◌≡◌, refl, sym, ◌∙◌, ap, Bool, true, false, not, All, ◌⊎◌, inl, inr, Bool-cases,
  Option, none, some, List, [], ◌∷◌, map, arith, length, get_elem?, nat_eq, list_eq, contains,
  nodup, nat_beq, Within, Within-trans, Within-refl, eq_iff, eq_refl,
}
use multi_tenant_rag_applica.Python.Text.{Text}
use multi_tenant_rag_applica.Python.Object.{Object, bool}
use multi_tenant_rag_applica.Python.Exec.{
  Result, ok, err, value_error, bind, bind-eq-ok, guard, type_error, ok_injective,
}
use multi_tenant_rag_applica.Python.Sorting.{sort_by, text_le}
use multi_tenant_rag_applica.Python.Sorting.Keyed.{
  Within-sort_by, IsSorted, sort_by-IsSorted, length-sort_by, All-sort_by,
}
use multi_tenant_rag_applica.Retrieval.Floats.{Floats, IsOrdered}
use multi_tenant_rag_applica.Retrieval.Candidates.{NormalResult}
use multi_tenant_rag_applica.Retrieval.Candidates.Scanned.{object_ids}
use multi_tenant_rag_applica.Retrieval.Ranking.{
  Ranked, RawRank, malformed, rank, checked_index, checked_score, ranked, selected_ranks, precedes,
  cross_encoder,
}

abbrev pub ranked_ids : {F : Type 0} → List (Ranked F) → List Text
ranked_ids {F = F} = map (λ c. c.object_id)

contains-get_elem? :
    (candidates : List NormalResult) (i : ℕ) (c : NormalResult)
    → get_elem? candidates i ≡ some c
    → contains c.object_id (object_ids candidates) ≡ true
unfolding contains
contains-get_elem? [] i c h = absurd (ground arith)
contains-get_elem? (x ∷ xs) zero c h =
    let here : x ≡ c = ground arith in rw here (ground (arith, eq_refl c.object_id))
contains-get_elem? (x ∷ xs) (suc i) c h = ground (arith, contains-get_elem? xs i c h)

-- Distinct identifiers stand at one index each.
get_elem?_injective :
    (candidates : List NormalResult) (i j : ℕ) (c d : NormalResult)
    → nodup (object_ids candidates) ≡ true
    → get_elem? candidates i ≡ some c
    → get_elem? candidates j ≡ some d
    → c.object_id ≡ d.object_id
    → i ≡ j
unfolding nodup
get_elem?_injective [] i j c d n g h e = absurd (ground arith)
get_elem?_injective (x ∷ xs) zero zero c d n g h e = refl
get_elem?_injective (x ∷ xs) zero (suc j) c d n g h e =
    let here : x ≡ c = ground arith in
    let there = contains-get_elem? xs j d h in absurd (ground (arith, ap (λ r. r.object_id) here))
get_elem?_injective (x ∷ xs) (suc i) zero c d n g h e =
    let here : x ≡ d = ground arith in
    let there = contains-get_elem? xs i c g in absurd (ground (arith, ap (λ r. r.object_id) here))
get_elem?_injective (x ∷ xs) (suc i) (suc j) c d n g h e =
    ap suc (get_elem?_injective xs i j c d (ground arith) g h e)

guarded : (b : Bool) (u : Unit {0}) → guard (not b) value_error ≡ ok u → b ≡ false
guarded b u h = ground arith

present :
    (o : Option NormalResult) (c : NormalResult)
    → Path (Result NormalResult) (elim o [ none ↦ err value_error | some c' ↦ ok c' ]) (ok c)
    → o ≡ some c
present none c h = absurd (ground arith)
present (some d) c h = ap some (ok_injective h)

-- The score is no NaN and not infinite.
abbrev pub IsFinite : (f : Floats) → Ranked f.Float → Type 0
IsFinite f c = f.is_finite c.rerank_score ≡ true

finite_guard :
    (f : Floats) (score : Object) (x : f.Float)
    → (bind (f.to_float score) λ y. bind (guard (f.is_finite y) value_error) λ _. ok y) ≡ ok x
    → f.is_finite x ≡ true
finite_guard f score x h =
    let (y, a, h₁) = bind-eq-ok (f.to_float score) _ h in
    elim (Bool-cases (f.is_finite y)) [
      | inl b ↦ ground (arith, h₁)
      | inr b ↦ absurd (ground (arith, h₁))
    ]

checked_score-IsFinite :
    (f : Floats) (score : Object) (x : f.Float)
    → checked_score f score ≡ ok x
    → f.is_finite x ≡ true
unfolding checked_score
checked_score-IsFinite f (bool b) x h = absurd (ground arith)
checked_score-IsFinite f score x h = finite_guard f score x h

module _ (f : Floats) (candidates : List NormalResult)
    (n : nodup (object_ids candidates) ≡ true) where
  -- What the loop selects: distinct candidates, none of them used before, one for each result.
  record Selects (raws : List RawRank) (used : List ℕ) (selected : List (Ranked f.Float))
      : Type 0 where
    included :
        (k : Text)
        → contains k (ranked_ids selected) ≡ true
        → contains k (object_ids candidates) ≡ true
    distinct : nodup (ranked_ids selected) ≡ true
    unused :
        (i : ℕ) (c : NormalResult)
        → contains i used ≡ true
        → get_elem? candidates i ≡ some c
        → contains c.object_id (ranked_ids selected) ≡ false
    count : length selected ≡ length raws
    finite : All (IsFinite f) selected

  cons-Selects :
      (r : RawRank) (raws : List RawRank) (used : List ℕ) (rest : List (Ranked f.Float)) (index : ℕ)
      (candidate : NormalResult) (score : f.Float)
      → contains index used ≡ false
      → get_elem? candidates index ≡ some candidate
      → f.is_finite score ≡ true
      → Selects raws (index ∷ used) rest
      → Selects (r ∷ raws) used (ranked f candidate score ∷ rest)
  unfolding contains nodup ranked
  cons-Selects r raws used rest index candidate score u g v s =
      let here : contains candidate.object_id (ranked_ids rest) ≡ false =
        s.unused index candidate (ground (arith, eq_iff index index)) g in
      record {
        included = λ k i. ground (
          arith,
          s.included k,
          contains-get_elem? candidates index candidate g,
          eq_iff candidate.object_id k,
        );
        distinct = ground (arith, s.distinct, here);
        unused = λ i c v e. ground (
          arith,
          s.unused i c,
          eq_iff index i,
          eq_iff candidate.object_id c.object_id,
          get_elem?_injective candidates index i candidate c n g e,
        );
        count = ap suc s.count;
        finite = (v, s.finite);
      }

  selected_ranks-Selects :
      (raws : List RawRank) (used : List ℕ) (selected : List (Ranked f.Float))
      → selected_ranks f candidates raws used ≡ ok selected
      → Selects raws used selected
  unfolding selected_ranks contains nodup
  selected_ranks-Selects [] used selected h =
      let none_left : [] ≡ selected = ground arith in
      rw (← none_left) (record {
        included = λ k i. absurd (ground arith);
        distinct = refl;
        unused = λ i c u g. refl;
        count = refl;
        finite = tt;
      })
  selected_ranks-Selects (malformed ∷ raws) used selected h = absurd (ground arith)
  selected_ranks-Selects (rank raw_index raw_score ∷ raws) used selected h =
      let (index, a, h₁) = bind-eq-ok (checked_index (length candidates) raw_index) _ h in
      let (u, b, h₂) = bind-eq-ok (guard (not (contains index used)) value_error) _ h₁ in
      let (score, c, h₃) = bind-eq-ok (checked_score f raw_score) _ h₂ in
      let (candidate, d, h₄) =
        bind-eq-ok (elim (get_elem? candidates index) [ none ↦ err value_error | some c' ↦ ok c' ])
          _ h₃ in
      let (rest, e, h₅) = bind-eq-ok (selected_ranks f candidates raws (index ∷ used)) _ h₄ in
      let all_of : ranked f candidate score ∷ rest ≡ selected = ok_injective h₅ in
      rw (← all_of) (
        cons-Selects (rank raw_index raw_score) raws used rest index candidate score
          (guarded (contains index used) u b) (present (get_elem? candidates index) candidate d)
          (checked_score-IsFinite f raw_score score c)
          (selected_ranks-Selects raws (index ∷ used) rest e))

text_le-total : (t u : Text) → text_le t u ≡ false → text_le u t ≡ true
unfolding text_le
text_le-total [] u h = absurd (ground arith)
text_le-total (c ∷ t) [] h = refl
text_le-total (c ∷ t) (d ∷ u) h = ground (arith, text_le-total t u)

precedes-total :
    (f : Floats)
    → IsOrdered f
    → (a b : Ranked f.Float) → IsFinite f a
    → IsFinite f b
    → precedes f a b ≡ false
    → precedes f b a ≡ true
unfolding precedes
precedes-total f o a b v w h = ground (
  arith,
  o.equal_sym a.rerank_score b.rerank_score,
  o.ordered a.rerank_score b.rerank_score (o.finite_number a.rerank_score v)
      (o.finite_number b.rerank_score w),
  text_le-total a.object_id b.object_id,
)

-- What the reranker is asked to score: as many results as candidates, or an exception.
scored-Within :
    (f : Floats) (candidates : List NormalResult) (raws : List RawRank)
    (selected : List (Ranked f.Float))
    → nodup (object_ids candidates) ≡ true
    → bind
        (guard (nat_beq (length raws) (length candidates)) value_error)
        (λ _. bind (selected_ranks f candidates raws []) (λ found. ok (sort_by (precedes f) found)))
      ≡ ok selected
    → (found : List (Ranked f.Float)) × (selected ≡ sort_by (precedes f) found)
      × Within (ranked_ids found) (object_ids candidates)
      × (length found ≡ length candidates)
      × All (IsFinite f) found
scored-Within f candidates raws selected n h =
    let (u, a, h₁) =
      bind-eq-ok (guard (nat_beq (length raws) (length candidates)) value_error) _ h in
    let (found, b, h₂) = bind-eq-ok (selected_ranks f candidates raws []) _ h₁ in
    let s = selected_ranks-Selects f candidates n raws [] found b in
    (
      found,
      sym (ok_injective h₂),
      record { included = s.included; distinct = λ d. s.distinct },
      s.count ∙ ground arith,
      s.finite,
    )

pub cross_encoder-found :
    (f : Floats) (rerank : Text → List Text → Result (Option (List RawRank)))
    (candidates : List NormalResult) (query : Text) (selected : List (Ranked f.Float))
    → nodup (object_ids candidates) ≡ true
    → cross_encoder f rerank candidates query ≡ ok selected
    → (found : List (Ranked f.Float)) × (selected ≡ sort_by (precedes f) found)
      × Within (ranked_ids found) (object_ids candidates)
      × (length found ≡ length candidates)
      × All (IsFinite f) found
unfolding cross_encoder sort_by
cross_encoder-found f rerank [] query selected n h =
    ([], sym (ok_injective h), Within-refl [], refl, tt)
cross_encoder-found f rerank (c ∷ cs) query selected n h =
    let (answer, a, h₁) =
      bind-eq-ok (rerank query (map (λ candidate. candidate.retrieval_text) (c ∷ cs))) _ h in
    answered answer h₁
  where
    answered :
        (answer : Option (List RawRank))
        → Path
            (Result (List (Ranked f.Float)))
            (elim answer [
              | none ↦ err type_error
              | some raw_results ↦
                  bind (guard (nat_beq (length raw_results) (length (c ∷ cs))) value_error) λ _.
                    bind
                      (selected_ranks f (c ∷ cs) raw_results [])
                      λ found. ok (sort_by (precedes f) found)
            ])
            (ok selected)
        → (found : List (Ranked f.Float)) × (selected ≡ sort_by (precedes f) found)
          × Within (ranked_ids found) (object_ids (c ∷ cs))
          × (length found ≡ length (c ∷ cs))
          × All (IsFinite f) found
    answered none e = absurd (ground arith)
    answered (some raws) e = scored-Within f (c ∷ cs) raws selected n e

-- Each candidate has a greater score than the next, or an equal one and an identifier that is not
-- behind the other's.
abbrev pub AreInOrder : (f : Floats) → List (Ranked f.Float) → Type 0
AreInOrder f [] = Unit
AreInOrder f (a ∷ []) = Unit
AreInOrder f (a ∷ b ∷ rest) =
    ((f.is_less b.rerank_score a.rerank_score ≡ true)
      ⊎ ((f.is_equal a.rerank_score b.rerank_score ≡ true)
          × (text_le a.object_id b.object_id ≡ true)))
    × AreInOrder f (b ∷ rest)

precedes-AreInOrder :
    (f : Floats) (xs : List (Ranked f.Float)) → IsSorted (precedes f) xs → AreInOrder f xs
unfolding precedes
precedes-AreInOrder f [] h = tt
precedes-AreInOrder f (a ∷ []) h = tt
precedes-AreInOrder f (a ∷ b ∷ rest) (h, k) = (
  elim (Bool-cases (f.is_equal a.rerank_score b.rerank_score)) [
    | inl e ↦ inr (e, ground arith)
    | inr e ↦ inl (ground arith)
  ],
  precedes-AreInOrder f (b ∷ rest) k,
)

-- The reranked candidates are all of the candidates, each once, with finite scores, the greater
-- scores first and equal scores in the order of the identifiers, when the candidates are distinct
-- and numbers are compared as `float` promises.
pub cross_encoder-IsSorted :
    (f : Floats) (rerank : Text → List Text → Result (Option (List RawRank)))
    (candidates : List NormalResult) (query : Text) (selected : List (Ranked f.Float))
    → IsOrdered f
    → nodup (object_ids candidates) ≡ true
    → cross_encoder f rerank candidates query ≡ ok selected
    → Within (ranked_ids selected) (object_ids candidates)
      × (length selected ≡ length candidates)
      × All (IsFinite f) selected
      × AreInOrder f selected
cross_encoder-IsSorted f rerank candidates query selected o n h =
    let (found, same, w, l, v) = cross_encoder-found f rerank candidates query selected n h in
    rw same (
      Within-trans _ _ _ (Within-sort_by (precedes f) (λ r. r.object_id) found) w,
      length-sort_by (precedes f) found ∙ l,
      All-sort_by (precedes f) (IsFinite f) found v,
      precedes-AreInOrder f (sort_by (precedes f) found)
          (sort_by-IsSorted (precedes f) (IsFinite f) (precedes-total f o) found v),
    )
