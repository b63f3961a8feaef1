-- ===== src/Retrieval/Ranking/Largest.antt =====
-- The largest of the gaps of backend/rag/retrieval.py, and where `list.index` finds it.
use multi_tenant_rag_applica.Prelude.{
  ℕ, suc, ◌≡◌, refl, Bool, true, ◌||◌, none, some, List, [], ◌∷◌, arith, nat_eq, list_eq,
  if◌then◌else◌, Bool-cases, inl, inr, false, All, get_elem?, Option-cases,
}
use multi_tenant_rag_applica.Python.Dict.{is_some}
use multi_tenant_rag_applica.Retrieval.Floats.{Floats, IsOrdered}
use multi_tenant_rag_applica.Retrieval.Ranking.{largest_of, index_of}

module _ (f : Floats) (o : IsOrdered f) where
  -- The float is not NaN.
  abbrev pub IsNumber : f.Float → Type 0
  IsNumber x = f.is_equal x x ≡ true

  larger-IsNumber :
      (best x : f.Float)
      → IsNumber best
      → IsNumber x
      → IsNumber (if f.is_less best x then x else best)
  larger-IsNumber best x p q = ground arith

  pub largest_of-IsNumber :
      (best : f.Float) (xs : List f.Float)
      → IsNumber best
      → All IsNumber xs
      → IsNumber (largest_of f best xs)
  unfolding largest_of
  largest_of-IsNumber best [] p h = p
  largest_of-IsNumber best (x ∷ xs) p h =
      largest_of-IsNumber (if f.is_less best x then x else best) xs (larger-IsNumber best x p h.0)
        h.1

  -- What is not below the larger of two numbers is below neither.
  not_below :
      (top best x : f.Float)
      → IsNumber top
      → IsNumber best
      → f.is_less top (if f.is_less best x then x else best) ≡ false
      → (f.is_less top best ≡ false) × (f.is_less top x ≡ false)
  not_below top best x p q h = elim (Bool-cases (f.is_less best x)) [
    | inl b ↦ (ground (arith, o.less_trans top best x), ground arith)
    | inr b ↦ (
      ground arith,
      ground (
        arith,
        o.ordered top best p q,
        o.equal_sym top best,
        o.equal_less best top x,
        o.less_trans best top x,
      ),
    )
  ]

  pub largest_of-greatest :
      (best : f.Float) (xs : List f.Float)
      → IsNumber best
      → All IsNumber xs
      → All (λ x. f.is_less (largest_of f best xs) x ≡ false) (best ∷ xs)
  unfolding largest_of
  largest_of-greatest best [] p h = (o.less_irrefl best, tt)
  largest_of-greatest best (x ∷ xs) p h =
      let next = if f.is_less best x then x else best in
      let number = larger-IsNumber best x p h.0 in
      let below = largest_of-greatest next xs number h.1 in
      let (u, v) =
        not_below (largest_of f next xs) best x (largest_of-IsNumber next xs number h.1) p
          below.0 in
      (u, (v, below.1))

  pub index_of-elem :
      (x : f.Float) (ys : List f.Float) (i : ℕ)
      → index_of f x ys ≡ some i
      → (y : f.Float) × (get_elem? ys i ≡ some y) × (f.is_equal y x ≡ true)
  unfolding index_of
  index_of-elem x [] i h = absurd (ground arith)
  index_of-elem x (y ∷ ys) i h = elim (Bool-cases (f.is_equal y x)) [
    | inl b ↦ let same : 0 ≡ i = ground arith in rw (← same) (y, refl, b)
    | inr b ↦ elim (Option-cases (index_of f x ys)) [
      | inl e ↦ absurd (ground arith)
      | inr (j, e) ↦ let same : suc j ≡ i = ground arith in rw (← same) (index_of-elem x ys j e)
    ]
  ]

  is_found : f.Float → List f.Float → Bool
  is_found x ys = is_some (index_of f x ys)

  is_found-cons :
      (x y : f.Float) (ys : List f.Float) → is_found x (y ∷ ys) ≡ (f.is_equal y x || is_found x ys)
  unfolding is_found index_of
  is_found-cons x y ys = ground arith

  -- The greatest of a list of numbers is found in it.
  largest_of-is_found :
      (best : f.Float) (xs : List f.Float)
      → IsNumber best
      → All IsNumber xs
      → is_found (largest_of f best xs) (best ∷ xs) ≡ true
  unfolding largest_of
  largest_of-is_found best [] p h = ground (arith, is_found-cons best best [])
  largest_of-is_found best (x ∷ xs) p h =
      let next = if f.is_less best x then x else best in
      let greatest = largest_of f next xs in
      ground (
        arith,
        largest_of-is_found next xs (larger-IsNumber best x p h.0) h.1,
        is_found-cons greatest next xs,
        is_found-cons greatest best (x ∷ xs),
        is_found-cons greatest x xs,
      )

  pub found_lem :
      (gap : f.Float) (gaps : List f.Float)
      → IsNumber gap
      → All IsNumber gaps
      → index_of f (largest_of f gap gaps) (gap ∷ gaps) ≡ none
      → ⊥
  unfolding is_found
  found_lem gap gaps p h e = ground (arith, e, largest_of-is_found gap gaps p h)

  -- What is not greater than a number stays below what the number is below.
  pub All-below :
      (top threshold : f.Float) (xs : List f.Float)
      → IsNumber top
      → All IsNumber xs
      → f.is_less top threshold ≡ true
      → All (λ x. f.is_less top x ≡ false) xs
      → All (λ x. f.is_less x threshold ≡ true) xs
  All-below top threshold [] p n b h = tt
  All-below top threshold (x ∷ xs) p n b h = (
    ground (
      arith,
      h.0,
      o.ordered x top n.0 p,
      o.equal_less x top threshold,
      o.less_trans x top threshold,
    ),
    All-below top threshold xs p n.1 b h.1,
  )

  -- Equal numbers are below the same.
  pub All-equal :
      (top g : f.Float) (xs : List f.Float)
      → f.is_equal g top ≡ true
      → All (λ x. f.is_less top x ≡ false) xs
      → All (λ x. f.is_less g x ≡ false) xs
  All-equal top g [] e h = tt
  All-equal top g (x ∷ xs) e h =
      (ground (arith, h.0, o.equal_sym g top, o.equal_less top g x), All-equal top g xs e h.1)
