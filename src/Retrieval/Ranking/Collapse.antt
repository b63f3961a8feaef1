-- ===== src/Retrieval/Ranking/Collapse.antt =====
-- `_collapse_conversations` of backend/rag/retrieval.py: one candidate for each conversation.
use multi_tenant_rag_applica.Prelude.{
  ℕ, zero, suc, ◌≤◌, ◌≡◌, ◌==◌, eq_iff, All, take, get_elem?, sym, refl, ◌∙◌, ap, true, Option,
  none, some, List, [], ◌∷◌, map, arith, length, length-take, nat_eq, list_eq, nodup, Within-take,
  Bool-cases, inl, inr,
}
use mathlib.Core.Path.{subst}
use multi_tenant_rag_applica.Python.Text.{Text}
use multi_tenant_rag_applica.Python.Object.{str}
use multi_tenant_rag_applica.Python.Exec.{ok, bind-eq-ok, ok_injective}
use multi_tenant_rag_applica.Python.Dict.{Dict, keys, lookup, insert}
use multi_tenant_rag_applica.Python.Dict.Members.{nodup-insert}
use multi_tenant_rag_applica.Python.Sorting.{sort_by}
use multi_tenant_rag_applica.Python.Sorting.Keyed.{nodup-sort_by, All-sort_by}
use multi_tenant_rag_applica.Retrieval.{required_text}
use multi_tenant_rag_applica.Retrieval.Floats.{Floats}
use multi_tenant_rag_applica.Retrieval.Ranking.{
  Ranked, segment_index_of, is_better, select_better, select_best, collapsed, precedes,
  collapse_conversations,
}
use multi_tenant_rag_applica.Retrieval.Ranking.Scores.{ranked_ids}

module _ (f : Floats) where
  select_better-nodup :
      (conversation_id : Text) (candidate : Ranked f.Float) (current : Option (Ranked f.Float))
      (selected selected' : Dict Text (Ranked f.Float))
      → nodup (keys selected) ≡ true
      → select_better f conversation_id candidate current selected ≡ ok selected'
      → nodup (keys selected') ≡ true
  unfolding select_better
  select_better-nodup c x none s s' n h = rw (← ok_injective h) (nodup-insert c x s n)
  select_better-nodup c x (some y) s s' n h =
      let (i, a, h₁) = bind-eq-ok (segment_index_of x.segment_index) _ h in
      let (j, b, h₂) = bind-eq-ok (segment_index_of y.segment_index) _ h₁ in
      rw (← ok_injective h₂) (elim (Bool-cases (is_better f x i y j)) [
        | inl g ↦ rw g (nodup-insert c x s n)
        | inr g ↦ rw g n
      ])

  select_best-nodup :
      (candidates : List (Ranked f.Float)) (s s' : Dict Text (Ranked f.Float))
      → nodup (keys s) ≡ true
      → select_best f candidates s ≡ ok s'
      → nodup (keys s') ≡ true
  unfolding select_best
  select_best-nodup [] s s' n h = rw (← ok_injective h) n
  select_best-nodup (x ∷ xs) s s' n h =
      let (c, a, h₁) = bind-eq-ok (required_text (str x.canonical_id)) _ h in
      let (t, b, h₂) = bind-eq-ok (select_better f c x (lookup c s) s) _ h₁ in
      select_best-nodup xs t s' (select_better-nodup c x (lookup c s) s t n b) h₂

  collapsed_ids : (s : Dict Text (Ranked f.Float)) → ranked_ids (map (collapsed f) s) ≡ keys s
  unfolding collapsed
  collapsed_ids [] = refl
  collapsed_ids ((c, x) ∷ s) = ap (◌∷◌ c) (collapsed_ids s)

-- The result stands for the conversation of a candidate, which is the segment that it was found by.
pub record IsSegmentOf (f : Floats) (candidates : List (Ranked f.Float)) (r : Ranked f.Float)
    : Type 0 where
  pub index : ℕ
  pub candidate : Ranked f.Float
  pub found : get_elem? candidates index ≡ some candidate
  pub conversation : r.object_id ≡ candidate.canonical_id
  pub segment : r.segment_id ≡ some candidate.object_id
  pub score : r.rerank_score ≡ candidate.rerank_score

All-insert :
    {V : Type 0} (P : Text × V → Type 0) (k : Text) (v : V) (d : Dict Text V)
    → P (k, v)
    → All P d
    → All P (insert k v d)
unfolding insert
All-insert P k v [] p h = (p, tt)
All-insert P k v ((j, w) ∷ d) p h = elim (Bool-cases (j == k)) [
  | inl b ↦
      let same : k ≡ j = ground (arith, eq_iff j k) in rw b (subst (λ i. P (i, v)) same p, h.1)
  | inr b ↦ rw b (h.0, All-insert P k v d p h.1)
]

required_text_same : (t u : Text) → required_text (str t) ≡ ok u → t ≡ u
unfolding required_text
required_text_same t u h = ground (arith, h)

module _ (f : Floats) (all_of : List (Ranked f.Float)) where
  abbrev IsGood : Text × Ranked f.Float → Type 0
  IsGood e = IsSegmentOf f all_of (collapsed f e)

  select_better-IsGood :
      (conversation_id : Text) (candidate : Ranked f.Float) (current : Option (Ranked f.Float))
      (selected selected' : Dict Text (Ranked f.Float))
      → IsGood (conversation_id, candidate)
      → All IsGood selected
      → select_better f conversation_id candidate current selected ≡ ok selected'
      → All IsGood selected'
  unfolding select_better
  select_better-IsGood c x none s s' g n h = rw (← ok_injective h) (All-insert IsGood c x s g n)
  select_better-IsGood c x (some y) s s' g n h =
      let (i, a, h₁) = bind-eq-ok (segment_index_of x.segment_index) _ h in
      let (j, b, h₂) = bind-eq-ok (segment_index_of y.segment_index) _ h₁ in
      rw (← ok_injective h₂) (elim (Bool-cases (is_better f x i y j)) [
        | inl e ↦ rw e (All-insert IsGood c x s g n)
        | inr e ↦ rw e n
      ])

  select_best-IsGood :
      (candidates : List (Ranked f.Float)) (s s' : Dict Text (Ranked f.Float))
      → ((i : ℕ) (c : Ranked f.Float)
          → get_elem? candidates i ≡ some c
          → (j : ℕ) × (get_elem? all_of j ≡ some c))
      → All IsGood s
      → select_best f candidates s ≡ ok s'
      → All IsGood s'
  unfolding select_best collapsed
  select_best-IsGood [] s s' w n h = rw (← ok_injective h) n
  select_best-IsGood (x ∷ xs) s s' w n h =
      let (c, a, h₁) = bind-eq-ok (required_text (str x.canonical_id)) _ h in
      let (t, b, h₂) = bind-eq-ok (select_better f c x (lookup c s) s) _ h₁ in
      let good : IsGood (c, x) = record {
        index = (w 0 x refl).0;
        candidate = x;
        found = (w 0 x refl).1;
        conversation = sym (required_text_same x.canonical_id c a);
        segment = refl;
        score = refl;
      } in
      select_best-IsGood xs t s' (λ i d e. w (suc i) d e)
        (select_better-IsGood c x (lookup c s) s t good n b) h₂

  collapsed-IsGood :
      (s : Dict Text (Ranked f.Float))
      → All IsGood s
      → All (IsSegmentOf f all_of) (map (collapsed f) s)
  collapsed-IsGood [] h = tt
  collapsed-IsGood (e ∷ s) h = (h.0, collapsed-IsGood s h.1)

All-take : {A : Type 0} (P : A → Type 0) (n : ℕ) (xs : List A) → All P xs → All P (take n xs)
All-take P zero xs h = tt
All-take P (suc n) [] h = tt
All-take P (suc n) (x ∷ xs) h = (h.0, All-take P n xs h.1)

-- The collapsed candidates are of distinct conversations and no more than the limit, and each has as
-- its identifier the conversation of a candidate, with the segment and the score of that candidate.
pub collapse_conversations-nodup :
    (f : Floats) (candidates : List (Ranked f.Float)) (limit : ℕ) (groups : List (Ranked f.Float))
    → collapse_conversations f candidates limit ≡ ok groups
    → (nodup (ranked_ids groups) ≡ true)
      × (length groups ≤ limit)
      × All (IsSegmentOf f candidates) groups
unfolding collapse_conversations nodup
collapse_conversations-nodup f candidates limit groups h =
    let (s, a, h₁) = bind-eq-ok (select_best f candidates []) _ h in
    let sorted = sort_by (precedes f) (map (collapsed f) s) in
    let distinct : nodup (ranked_ids sorted) ≡ true =
      nodup-sort_by (precedes f) (λ r. r.object_id) (map (collapsed f) s)
      ∙ rw (collapsed_ids f s) (select_best-nodup f candidates [] s refl a) in
    let good = select_best-IsGood f candidates candidates [] s (λ i c e. (i, e)) tt a in
    rw (← ok_injective h₁) (
      (Within-take (λ (r : Ranked f.Float). r.object_id) limit sorted).distinct distinct,
      omega (arith, length-take limit sorted),
      All-take (IsSegmentOf f candidates) limit sorted (
          All-sort_by (precedes f) (IsSegmentOf f candidates) (map (collapsed f) s)
            (collapsed-IsGood f candidates s good)),
    )
