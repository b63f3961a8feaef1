-- ===== src/Python/Sorting/Keyed.antt =====
-- Sorting changes neither the keys of a list nor its length.
use multi_tenant_rag_applica.Prelude.{
  suc, ◌≡◌, refl, Bool, true, false, ◌||◌, List, [], ◌∷◌, map, arith, Eq, ◌==◌, contains, nodup,
  length, All, Within, Bool-cases, inl, inr,
}
use multi_tenant_rag_applica.Python.Sorting.{insert_by, sort_by}

module _ {ℓ κ} {A : Type ℓ} {K : Type κ} ⦃e : Eq K⦄ (le : A → A → Bool) (g : A → K) where
  contains-insert_by :
      (k : K) (x : A) (xs : List A)
      → contains k (map g (insert_by le x xs)) ≡ (g x == k || contains k (map g xs))
  unfolding insert_by contains
  contains-insert_by k x [] = refl
  contains-insert_by k x (y ∷ ys) = ground (arith, contains-insert_by k x ys)

  nodup-insert_by :
      (x : A) (xs : List A) → nodup (map g (insert_by le x xs)) ≡ nodup (g x ∷ map g xs)
  unfolding insert_by nodup contains
  nodup-insert_by x [] = refl
  nodup-insert_by x (y ∷ ys) = ground (
    arith,
    nodup-insert_by x ys,
    contains-insert_by (g y) x ys,
    e.beq_iff (g x) (g y),
    e.beq_iff (g y) (g x),
  )

  pub contains-sort_by :
      (k : K) (xs : List A) → contains k (map g (sort_by le xs)) ≡ contains k (map g xs)
  unfolding sort_by contains
  contains-sort_by k [] = refl
  contains-sort_by k (x ∷ xs) =
      ground (arith, contains-insert_by k x (sort_by le xs), contains-sort_by k xs)

  pub nodup-sort_by : (xs : List A) → nodup (map g (sort_by le xs)) ≡ nodup (map g xs)
  unfolding sort_by nodup
  nodup-sort_by [] = refl
  nodup-sort_by (x ∷ xs) =
      ground (arith, nodup-insert_by x (sort_by le xs), contains-sort_by (g x) xs, nodup-sort_by xs)

  pub Within-sort_by : (xs : List A) → Within (map g (sort_by le xs)) (map g xs)
  Within-sort_by xs = record {
    included = λ k h. ground (arith, contains-sort_by k xs);
    distinct = λ h. ground (arith, nodup-sort_by xs);
  }

module _ {ℓ} {A : Type ℓ} (le : A → A → Bool) where
  length-insert_by : (x : A) (xs : List A) → length (insert_by le x xs) ≡ suc (length xs)
  unfolding insert_by
  length-insert_by x [] = refl
  length-insert_by x (y ∷ ys) = ground (arith, length-insert_by x ys)

  pub length-sort_by : (xs : List A) → length (sort_by le xs) ≡ length xs
  unfolding sort_by
  length-sort_by [] = refl
  length-sort_by (x ∷ xs) = ground (arith, length-insert_by x (sort_by le xs), length-sort_by xs)

  -- Each element stands before the next.
  abbrev pub IsSorted : List A → Type 0
  IsSorted [] = Unit
  IsSorted (x ∷ []) = Unit
  IsSorted (x ∷ y ∷ ys) = (le x y ≡ true) × IsSorted (y ∷ ys)

  module _ {μ} (P : A → Type μ) where
    All-insert_by : (x : A) (xs : List A) → P x → All P xs → All P (insert_by le x xs)
    unfolding insert_by
    All-insert_by x [] p h = (p, tt)
    All-insert_by x (y ∷ ys) p h = elim (Bool-cases (le x y)) [
      | inl b ↦ rw b (p, h)
      | inr b ↦ rw b (h.0, All-insert_by x ys p h.1)
    ]

    pub All-sort_by : (xs : List A) → All P xs → All P (sort_by le xs)
    unfolding sort_by
    All-sort_by [] h = tt
    All-sort_by (x ∷ xs) h = All-insert_by x (sort_by le xs) h.0 (All-sort_by xs h.1)

    module _ (total : (x y : A) → P x → P y → le x y ≡ false → le y x ≡ true) where
      insert_by-IsSorted :
          (x : A) (xs : List A) → P x → All P xs → IsSorted xs → IsSorted (insert_by le x xs)
      unfolding insert_by
      insert_by-IsSorted x [] p a h = tt
      insert_by-IsSorted x (y ∷ []) p a h = elim (Bool-cases (le x y)) [
        | inl b ↦ rw b (b, tt)
        | inr b ↦ rw b (total x y p a.0 b, tt)
      ]
      insert_by-IsSorted x (y ∷ z ∷ zs) p a (h, k) = elim (Bool-cases (le x y)) [
        | inl b ↦ rw b (b, (h, k))
        | inr b ↦
            let later : IsSorted (insert_by le x (z ∷ zs)) =
              insert_by-IsSorted x (z ∷ zs) p a.1 k in
            rw b (elim (Bool-cases (le x z)) [
              | inl d ↦ rw d (total x y p a.0 b, (d, k))
              | inr d ↦ rw d (h, rw d at later)
            ])
      ]

      -- Where the test is total on the elements of the list.
      pub sort_by-IsSorted : (xs : List A) → All P xs → IsSorted (sort_by le xs)
      unfolding sort_by
      sort_by-IsSorted [] h = tt
      sort_by-IsSorted (x ∷ xs) h =
          insert_by-IsSorted x (sort_by le xs) h.0 (All-sort_by xs h.1) (sort_by-IsSorted xs h.1)
