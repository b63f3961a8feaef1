-- ===== src/Retrieval/Diversity.antt =====
-- `_mmr` of backend/rag/retrieval.py: the selection of relevant candidates that differ.
pub mod Chosen
pub mod Items
pub mod Selected
use multi_tenant_rag_applica.Prelude.{
  ℕ, zero, suc, Bool, true, false, ◌&&◌, ◌||◌, not, Option, none, some, List, [], ◌∷◌, ◌++◌, map,
  nat_beq, length, min, get_elem?, if◌then◌else◌,
}
use multi_tenant_rag_applica.Python.Text.{is_empty}
use multi_tenant_rag_applica.Python.Exec.{
  Result, ok, err, value_error, key_error, bind, guard, traverse,
}
use multi_tenant_rag_applica.Python.Sorting.{count_up}
use multi_tenant_rag_applica.Retrieval.Floats.{Floats}
use multi_tenant_rag_applica.Retrieval.Ranking.{Ranked, RetrievalConfig, largest_of}

-- `candidates[index]`, for an index that is in range
unfoldable pub item_at {ℓ} : {A : Type ℓ} → List A → ℕ → Result A
item_at items index = elim (get_elem? items index) [ none ↦ err key_error | some a ↦ ok a ]

-- `remaining.remove(index)`
unfoldable pub removed : ℕ → List ℕ → List ℕ
removed index [] = []
removed index (i ∷ remaining) =
    let rest = removed index remaining in if nat_beq i index then remaining else i ∷ rest

module _ (f : Floats) where
  -- `x <= y`
  unfoldable pub at_most : f.Float → f.Float → Bool
  at_most x y = f.is_less x y || f.is_equal x y

  unfoldable pub sum_of : List f.Float → f.Float → f.Float
  sum_of [] total = total
  sum_of (x ∷ xs) total = sum_of xs (f.add total x)

  unfoldable pub products : List f.Float → List f.Float → List f.Float
  products (x ∷ xs) (y ∷ ys) = f.multiply x y ∷ products xs ys
  products _ _ = []

  unfoldable pub norm : List f.Float → f.Float
  unfolding sum_of products
  norm v = f.square_root (sum_of (products v v) f.zero)

  -- `min(1.0, max(0.0, x))`
  unfoldable pub clipped : f.Float → f.Float
  clipped x =
      let positive = if f.is_less f.zero x then x else f.zero in
      if f.is_less positive f.one then positive else f.one

  unfoldable pub cosine_similarity : List f.Float → List f.Float → Result f.Float
  unfolding at_most sum_of products norm clipped
  cosine_similarity left right =
      bind (guard (nat_beq (length left) (length right) && not (is_empty left)) value_error) λ _.
        bind (guard (not (at_most (norm left) f.zero || at_most (norm right) f.zero)) value_error)
          λ _. ok (
            clipped (
              f.divide (sum_of (products left right) f.zero) (f.multiply (norm left) (norm right))))

  -- `min` and `max` of scores that begin with one
  unfoldable pub smallest_of : f.Float → List f.Float → f.Float
  smallest_of best [] = best
  smallest_of best (x ∷ xs) = smallest_of (if f.is_less x best then x else best) xs

  unfoldable pub normalize_scores : List (Ranked f.Float) → List f.Float
  unfolding smallest_of largest_of
  normalize_scores [] = []
  normalize_scores (c ∷ cs) =
      let scores = map (λ candidate. candidate.rerank_score) cs in
      let low = smallest_of c.rerank_score scores in
      let high = largest_of f c.rerank_score scores in
      let scale = f.subtract high low in
      if f.is_equal high low
      then map (λ x. f.one) (c ∷ cs)
      else map (λ candidate. f.divide (f.subtract candidate.rerank_score low) scale) (c ∷ cs)

  -- `candidate["diversity_vector"]`
  unfoldable pub vector_of : Ranked f.Float → Result (List f.Float)
  vector_of candidate = elim candidate.diversity_vector [ none ↦ err key_error | some v ↦ ok v ]

  unfoldable pub similarity_at : List (Ranked f.Float) → ℕ → ℕ → Result f.Float
  unfolding item_at vector_of cosine_similarity
  similarity_at pool index chosen = bind (item_at pool index) λ a.
      bind (vector_of a)
        λ v. bind (item_at pool chosen) λ b. bind (vector_of b) λ w. cosine_similarity v w

  unfoldable pub redundancy_of : List (Ranked f.Float) → ℕ → List ℕ → Result f.Float
  unfolding similarity_at largest_of
  redundancy_of pool index [] = ok f.zero
  redundancy_of pool index (chosen ∷ rest) =
      bind (similarity_at pool index chosen)
        λ x. bind (traverse (similarity_at pool index) rest) λ xs. ok (largest_of f x xs)

  unfoldable pub objective_of :
      RetrievalConfig f.Float → List (Ranked f.Float) → List f.Float → List ℕ → ℕ → Result f.Float
  unfolding redundancy_of item_at
  objective_of config pool normalized selected_indices index =
      bind (redundancy_of pool index selected_indices) λ redundancy.
        bind (item_at normalized index) λ score. ok (
          f.subtract (f.multiply config.mmr_lambda score)
            (f.multiply (f.subtract f.one config.mmr_lambda) redundancy))

  -- The loop over what remains.
  unfoldable pub best_index_of : (ℕ → Result f.Float) → ℕ → f.Float → List ℕ → Result ℕ
  best_index_of objective best_index best_objective [] = ok best_index
  best_index_of objective best_index best_objective (index ∷ remaining) =
      bind (objective index) λ x.
        if f.is_less best_objective x
        then best_index_of objective index x remaining
        else best_index_of objective best_index best_objective remaining

  -- The loop that selects, with `count` selections left.
  unfoldable pub select_indices :
      RetrievalConfig f.Float
      → List (Ranked f.Float)
      → List f.Float
      → ℕ
      → List ℕ
      → List ℕ
      → Result (List ℕ)
  unfolding objective_of best_index_of removed
  select_indices config pool normalized zero remaining selected_indices = ok selected_indices
  select_indices config pool normalized (suc count) [] selected_indices = ok selected_indices
  select_indices config pool normalized (suc count) (index ∷ remaining) selected_indices =
      bind
        (best_index_of (objective_of config pool normalized selected_indices) index f.minus_infinity
          (index ∷ remaining))
        λ best.
          select_indices config pool normalized count (removed best (index ∷ remaining))
            (selected_indices ++ best ∷ [])

  unfoldable pub mmr :
      List (Ranked f.Float) → ℕ → RetrievalConfig f.Float → Result (List (Ranked f.Float))
  unfolding normalize_scores select_indices item_at
  mmr eligible k config =
      if nat_beq k 0
      then ok []
      else bind
          (select_indices config eligible (normalize_scores eligible) (min k (length eligible))
            (count_up 0 (length eligible)) [])
          λ selected_indices. traverse (item_at eligible) selected_indices
