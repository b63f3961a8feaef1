-- ===== src/Retrieval/Diversity/Items.antt =====
-- `_mmr` of backend/rag/retrieval.py takes the items of a list at some indices.
use mathlib.Core.Path.{subst}
use multi_tenant_rag_applica.Prelude.{
  ℕ, zero, suc, ◌<◌, ◌≡◌, refl, sym, ◌∙◌, ap, true, false, List, [], ◌∷◌, map, arith, All, length,
  ◌==◌, Eq, nat_eq, list_eq, contains, contains_head, contains_tail, nodup, Within, Bool-cases, inl,
  inr, eq_refl,
}
use multi_tenant_rag_applica.Python.Exec.{Result, ok, bind-eq-ok, ok_injective, traverse}
use multi_tenant_rag_applica.Retrieval.Diversity.{item_at}

module _ {ℓ} {A : Type ℓ} where
  pub item_at-All {κ} :
      (P : A → Type κ) (items : List A) (i : ℕ)
      → All P items
      → i < length items
      → (a : A) × (item_at items i ≡ ok a) × P a
  unfolding item_at
  item_at-All P [] i h l = absurd (omega (arith, l))
  item_at-All P (x ∷ xs) zero h l = (x, refl, h.0)
  item_at-All P (x ∷ xs) (suc i) h l = item_at-All P xs i h.1 (omega (arith, l))

  item_at-holds {κ} :
      (P : A → Type κ) (items : List A) (i : ℕ) (a : A) → All P items → item_at items i ≡ ok a → P a
  unfolding item_at
  item_at-holds P [] i a h e = absurd (ground arith)
  item_at-holds P (x ∷ xs) zero a h e = subst P (ok_injective e) h.0
  item_at-holds P (x ∷ xs) (suc i) a h e = item_at-holds P xs i a h.1 e

  pub items-All {κ} :
      (P : A → Type κ) (items : List A) (indices : List ℕ) (result : List A)
      → All P items
      → traverse (item_at items) indices ≡ ok result
      → All P result
  unfolding traverse
  items-All P items [] result h e = subst (All P) (ok_injective e) tt
  items-All P items (i ∷ indices) result h e =
      let (a, p, e₁) = bind-eq-ok (item_at items i) _ e in
      let (rest, q, e₂) = bind-eq-ok (traverse (item_at items) indices) _ e₁ in
      subst (All P) (ok_injective e₂)
        (item_at-holds P items i a h p, items-All P items indices rest h q)

  All-true : (items : List A) → All (λ a. Unit {0}) items
  All-true [] = tt
  All-true (x ∷ xs) = (tt, All-true xs)

  pub item_at-ok : (items : List A) (i : ℕ) → i < length items → (a : A) × (item_at items i ≡ ok a)
  item_at-ok items i l =
      let (a, e, u) = item_at-All (λ x. Unit {0}) items i (All-true items) l in (a, e)

  module _ {κ} {K : Type κ} ⦃e : Eq K⦄ (g : A → K) where
    item_at-contains :
        (items : List A) (i : ℕ) (a : A)
        → item_at items i ≡ ok a
        → contains (g a) (map g items) ≡ true
    unfolding item_at contains
    item_at-contains [] i a h = absurd (ground arith)
    item_at-contains (x ∷ xs) zero a h = rw (ok_injective h, eq_refl (g a))
    item_at-contains (x ∷ xs) (suc i) a h =
        contains_tail (g a) (g x) (map g xs) (item_at-contains xs i a h)

    item_at-injective :
        (items : List A) (i j : ℕ) (a b : A)
        → nodup (map g items) ≡ true
        → item_at items i ≡ ok a
        → item_at items j ≡ ok b
        → g a ≡ g b
        → i ≡ j
    unfolding item_at nodup
    item_at-injective [] i j a b n h k s = absurd (ground arith)
    item_at-injective (x ∷ xs) zero zero a b n h k s = refl
    item_at-injective (x ∷ xs) zero (suc j) a b n h k s =
        let same : g x ≡ g b = ap g (ok_injective h) ∙ s in
        absurd (ground (arith, item_at-contains xs j b k, same))
    item_at-injective (x ∷ xs) (suc i) zero a b n h k s =
        let same : g x ≡ g a = ap g (ok_injective k) ∙ sym s in
        absurd (ground (arith, item_at-contains xs i a h, same))
    item_at-injective (x ∷ xs) (suc i) (suc j) a b n h k s =
        ap suc (item_at-injective xs i j a b (ground arith) h k s)

    -- A key of the items at some indices is the key of the item at one of them.
    contains-items :
        (items : List A) (k : K) (indices : List ℕ) (result : List A)
        → traverse (item_at items) indices ≡ ok result
        → contains k (map g result) ≡ true
        → (i : ℕ) × (a : A) × (contains i indices ≡ true) × (item_at items i ≡ ok a) × (g a ≡ k)
    unfolding traverse contains
    contains-items items k [] result h c =
        let c' = subst (λ r. contains k (map g r) ≡ true) (sym (ok_injective h)) c in
        absurd (ground (arith, c'))
    contains-items items k (i ∷ indices) result h c =
        let (a, p, h₁) = bind-eq-ok (item_at items i) _ h in
        let (rest, q, h₂) = bind-eq-ok (traverse (item_at items) indices) _ h₁ in
        let c' = subst (λ r. contains k (map g r) ≡ true) (sym (ok_injective h₂)) c in
        elim (Bool-cases (g a == k)) [
          | inl s ↦ (i, a, contains_head i indices, p, ground (arith, e.beq_iff (g a) k))
          | inr s ↦
              let (j, b, m, r, t) = contains-items items k indices rest q (ground arith) in
              (j, b, contains_tail j i indices m, r, t)
        ]

    nodup-items :
        (items : List A) (indices : List ℕ) (result : List A)
        → traverse (item_at items) indices ≡ ok result
        → nodup indices ≡ true
        → nodup (map g items) ≡ true
        → nodup (map g result) ≡ true
    unfolding traverse nodup
    nodup-items items [] result h n d = rw (← ok_injective h) refl
    nodup-items items (i ∷ indices) result h n d =
        let (a, p, h₁) = bind-eq-ok (item_at items i) _ h in
        let (rest, q, h₂) = bind-eq-ok (traverse (item_at items) indices) _ h₁ in
        let fresh : contains (g a) (map g rest) ≡ false =
          elim (Bool-cases (contains (g a) (map g rest))) [
            | inl c ↦
                let (j, b, m, r, t) = contains-items items (g a) indices rest q c in
                let same : i ≡ j = item_at-injective items i j a b d p r (sym t) in
                absurd (ground (arith, same, m))
            | inr c ↦ c
          ] in
        rw (← ok_injective h₂) (ground (arith, fresh, nodup-items items indices rest q))

    pub items-Within :
        (items : List A) (indices : List ℕ) (result : List A)
        → traverse (item_at items) indices ≡ ok result
        → nodup indices ≡ true
        → Within (map g result) (map g items)
    items-Within items indices result h n = record {
      included = λ k c.
          let (i, a, m, r, t) = contains-items items k indices result h c in
          rw (← t) (item_at-contains items i a r);
      distinct = nodup-items items indices result h n;
    }

module _ {A B : Type 0} (g : A → Result B) where
  -- A comprehension raises only where one of its items does.
  pub traverse-ok :
      (xs : List A)
      → All (λ x. (y : B) × (g x ≡ ok y)) xs
      → (ys : List B) × (traverse g xs ≡ ok ys) × (length ys ≡ length xs)
  unfolding traverse
  traverse-ok [] h = ([], refl, refl)
  traverse-ok (x ∷ xs) h =
      let (y, e) = h.0 in let (ys, r, l) = traverse-ok xs h.1 in (y ∷ ys, rw (e, r), ap suc l)
