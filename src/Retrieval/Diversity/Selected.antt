-- ===== src/Retrieval/Diversity/Selected.antt =====
-- `_mmr` of backend/rag/retrieval.py on candidates whose vectors are usable.
use mathlib.Core.Path.{subst}
use multi_tenant_rag_applica.Prelude.{
  ℕ, zero, suc, ◌<◌, ◌≡◌, refl, true, false, some, List, [], ◌∷◌, map, arith, All, length,
  length-map, min, nat_beq, nat_eq, list_eq, contains, contains_head, contains_tail, Within,
  Within-nil, Bool-cases, inl, inr, eq_refl,
}
use multi_tenant_rag_applica.Python.Text.{is_empty}
use multi_tenant_rag_applica.Python.Exec.{ok, bind, bind-eq-ok, ok_injective, traverse}
use multi_tenant_rag_applica.Python.Sorting.{count_up}
use multi_tenant_rag_applica.Retrieval.Floats.{Floats}
use multi_tenant_rag_applica.Retrieval.Ranking.{Ranked, RetrievalConfig, largest_of}
use multi_tenant_rag_applica.Retrieval.Ranking.Scores.{ranked_ids}
use multi_tenant_rag_applica.Retrieval.Diversity.{
  item_at, at_most, norm, cosine_similarity, vector_of, similarity_at, redundancy_of, objective_of,
  clipped, sum_of, products, normalize_scores, smallest_of, mmr, select_indices,
}
use multi_tenant_rag_applica.Retrieval.Diversity.Items.{
  item_at-All, item_at-ok, items-All, items-Within, traverse-ok,
}
use multi_tenant_rag_applica.Prelude.{Within-nil}
use multi_tenant_rag_applica.Retrieval.Diversity.Chosen.{
  length-count_up, select_indices-Selecting, Selecting-start,
}

All-below {ℓ} : (P : ℕ → Type ℓ) (xs : List ℕ) → ((k : ℕ) → contains k xs ≡ true → P k) → All P xs
All-below P [] h = tt
All-below P (x ∷ xs) h =
    (h x (contains_head x xs), All-below P xs (λ k c. h k (contains_tail k x xs c)))

module _ (f : Floats) (dimension : ℕ) where
  -- A vector that `_diversity_vector` accepts.
  pub record IsVector (v : List f.Float) : Type 0 where
    pub sized : length v ≡ dimension
    pub inhabited : is_empty v ≡ false
    pub nonzero : at_most f (norm f v) f.zero ≡ false

  abbrev pub IsUsable : Ranked f.Float → Type 0
  IsUsable c = (v : List f.Float) × (c.diversity_vector ≡ some v) × IsVector v

  cosine_similarity-ok :
      (v w : List f.Float)
      → IsVector v
      → IsVector w
      → (x : f.Float) × (cosine_similarity f v w ≡ ok x)
  unfolding cosine_similarity
  cosine_similarity-ok v w p q = (
    clipped f (f.divide (sum_of f (products f v w) f.zero) (f.multiply (norm f v) (norm f w))),
    rw (p.sized, q.sized, eq_refl dimension, p.inhabited, p.nonzero, q.nonzero),
  )

  module _ (pool : List (Ranked f.Float)) (usable : All IsUsable pool) where
    vector_of-ok :
        (a : Ranked f.Float) (v : List f.Float) → a.diversity_vector ≡ some v → vector_of f a ≡ ok v
    unfolding vector_of
    vector_of-ok a v e = rw e

    similarity_at-ok :
        (i j : ℕ)
        → i < length pool
        → j < length pool
        → (x : f.Float) × (similarity_at f pool i j ≡ ok x)
    unfolding similarity_at
    similarity_at-ok i j h k =
        let (a, p, (v, q, u)) = item_at-All IsUsable pool i usable h in
        let (b, r, (w, s, t)) = item_at-All IsUsable pool j usable k in
        let (x, e) = cosine_similarity-ok v w u t in
        let left = vector_of-ok a v q in
        let right = vector_of-ok b w s in (x, rw (p, left, r, right) e)

    redundancy_of-ok :
        (i : ℕ) (selected : List ℕ)
        → i < length pool
        → ((j : ℕ) → contains j selected ≡ true → j < length pool)
        → (x : f.Float) × (redundancy_of f pool i selected ≡ ok x)
    unfolding redundancy_of
    redundancy_of-ok i [] h k = (f.zero, refl)
    redundancy_of-ok i (j ∷ selected) h k =
        let (x, p) = similarity_at-ok i j h (k j (contains_head j selected)) in
        let each =
          All-below (λ c. (y : f.Float) × (similarity_at f pool i c ≡ ok y)) selected
            (λ c m. similarity_at-ok i c h (k c (contains_tail c j selected m))) in
        let (xs, q, l) = traverse-ok (similarity_at f pool i) selected each in
        (largest_of f x xs, rw (p, q))

    objective_of-ok :
        (config : RetrievalConfig f.Float) (normalized : List f.Float) (selected : List ℕ) (i : ℕ)
        → length normalized ≡ length pool
        → ((j : ℕ) → contains j selected ≡ true → j < length pool)
        → i < length pool
        → (x : f.Float) × (objective_of f config pool normalized selected i ≡ ok x)
    unfolding objective_of
    objective_of-ok config normalized selected i l k h =
        let (x, p) = redundancy_of-ok i selected h k in
        let (y, q) = item_at-ok normalized i (omega (arith, l, h)) in
        (
          f.subtract (f.multiply config.mmr_lambda y)
              (f.multiply (f.subtract f.one config.mmr_lambda) x),
          rw (p, q),
        )

length-normalize_scores :
    (f : Floats) (pool : List (Ranked f.Float)) → length (normalize_scores f pool) ≡ length pool
unfolding normalize_scores
length-normalize_scores f [] = refl
length-normalize_scores f (c ∷ cs) =
    let scores = map (λ (candidate : Ranked f.Float). candidate.rerank_score) cs in
    elim (Bool-cases
      (f.is_equal (largest_of f c.rerank_score scores) (smallest_of f c.rerank_score scores))) [
        | inl e ↦ rw e (length-map (c ∷ cs) _)
        | inr e ↦ rw e (length-map (c ∷ cs) _)
      ]

-- What every candidate has, the selected ones have.
pub mmr-All :
    (f : Floats) (P : Ranked f.Float → Type 0) (pool : List (Ranked f.Float)) (k : ℕ)
    (config : RetrievalConfig f.Float) (selected : List (Ranked f.Float))
    → All P pool
    → mmr f pool k config ≡ ok selected
    → All P selected
unfolding mmr
mmr-All f P pool zero config selected h e = subst (All P) (ok_injective e) tt
mmr-All f P pool (suc k) config selected h e =
    let size = length pool in
    let started =
      select_indices f config pool (normalize_scores f pool) (min (suc k) size) (count_up 0 size)
        [] in
    let positive : nat_beq (suc k) 0 ≡ false = ground arith in
    let e' : bind started (traverse (item_at pool)) ≡ ok selected = rw positive at e in
    let (indices, p, e₁) = bind-eq-ok started _ e' in items-All P pool indices selected h e₁

-- On candidates whose vectors are all usable the selection does not raise: it returns as many as it
-- was asked for, or all where there are fewer, each of them a candidate, and none of them twice where
-- the candidates are distinct.
pub mmr-Within :
    (f : Floats) (dimension : ℕ) (pool : List (Ranked f.Float)) (k : ℕ)
    (config : RetrievalConfig f.Float)
    → All (IsUsable f dimension) pool
    → (selected : List (Ranked f.Float)) × (mmr f pool k config ≡ ok selected)
      × (length selected ≡ min k (length pool))
      × Within (ranked_ids selected) (ranked_ids pool)
unfolding mmr
mmr-Within f dimension pool zero config usable =
    ([], refl, omega arith, Within-nil (ranked_ids pool))
mmr-Within f dimension pool (suc k) config usable =
    let size = length pool in
    let positive : nat_beq (suc k) 0 ≡ false = ground arith in
    let normalized = normalize_scores f pool in
    let (indices, e, d, b, l) =
      select_indices-Selecting f config pool normalized size
        (λ selected i c h.
          objective_of-ok f dimension pool usable config normalized selected i
            (length-normalize_scores f pool) c h)
        (min (suc k) size) (count_up 0 size) [] (Selecting-start size) in
    let (result, r, m) = traverse-ok (item_at pool) indices (
      All-below (λ i. (a : Ranked f.Float) × (item_at pool i ≡ ok a)) indices
        (λ i c. item_at-ok pool i (b i c))) in
    (
      result,
      rw (positive, e) r,
      omega (arith, l, m, length-count_up 0 size),
      items-Within (λ (c : Ranked f.Float). c.object_id) pool indices result r d,
    )
