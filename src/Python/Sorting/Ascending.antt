-- ===== src/Python/Sorting/Ascending.antt =====
-- Sorting a dictionary with distinct number keys makes its keys ascend, and keys that ascend
-- within a range of their own number are all of the range.
use multi_tenant_rag_applica.Prelude.{
  ℕ, zero, suc, ◌+◌, ◌≤◌, ◌<◌, ◌≡◌, refl, ◌≢◌, true, List, [], ◌∷◌, All, arith, length, nat_eq,
  contains,
}
use multi_tenant_rag_applica.Python.Dict.{Dict, keys}
use multi_tenant_rag_applica.Python.Dict.Keys.{Distinct}
use multi_tenant_rag_applica.Python.Sorting.{insert_by, sort_by, key_le, sorted_items, count_up}

-- Strictly ascending, from `a` on.
abbrev pub Ascending : ℕ → List ℕ → Type 0
Ascending a [] = Unit
Ascending a (x ∷ xs) = (a ≤ x) × Ascending (suc x) xs

Ascending-length :
    (a b : ℕ) (xs : List ℕ) → Ascending a xs → All (λ x. x < b) xs → a ≤ b → a + length xs ≤ b
Ascending-length a b [] h k le = omega arith
Ascending-length a b (x ∷ xs) h k le = omega (arith, Ascending-length (suc x) b xs h.1 k.1)

pub Ascending-eq-count_up :
    (a n b : ℕ) (xs : List ℕ)
    → length xs ≡ n
    → b ≡ a + n
    → Ascending a xs
    → All (λ x. x < b) xs
    → xs ≡ count_up a n
Ascending-eq-count_up a zero b [] e s h k = refl
Ascending-eq-count_up a zero b (x ∷ xs) e s h k = absurd (omega arith)
Ascending-eq-count_up a (suc n) b [] e s h k = absurd (omega arith)
Ascending-eq-count_up a (suc n) b (x ∷ xs) e s h k =
    let here : x ≡ a = omega (arith, Ascending-length (suc x) b xs h.1 k.1) in
    cc (here, Ascending-eq-count_up (suc a) n b xs (omega arith) (omega arith) (rw here at h.1) k.1)

pub contains-count_up : (k a n : ℕ) → contains k (count_up a n) ≡ true → (a ≤ k) × (k < a + n)
unfolding contains
contains-count_up k a zero h = cc
contains-count_up k a (suc n) h = ground (arith, contains-count_up k (suc a) n)

module _ {ℓ} {V : Type ℓ} where
  All-insert_by {μ} :
      (P : ℕ → Type μ) (k : ℕ) (v : V) (d : Dict ℕ V)
      → P k
      → All P (keys d)
      → All P (keys (insert_by key_le (k, v) d))
  unfolding insert_by
  All-insert_by P k v [] p h = (p, tt)
  All-insert_by P k v ((j, w) ∷ d) p h = ground (arith, All-insert_by P k v d)

  pub All-sorted_items {μ} :
      (P : ℕ → Type μ) (d : Dict ℕ V) → All P (keys d) → All P (keys (sorted_items d))
  unfolding sort_by
  All-sorted_items P [] h = tt
  All-sorted_items P ((k, v) ∷ d) h =
      All-insert_by P k v (sorted_items d) h.0 (All-sorted_items P d h.1)

  Ascending-insert_by :
      (a k : ℕ) (v : V) (d : Dict ℕ V)
      → a ≤ k
      → All (λ j. j ≢ k) (keys d)
      → Ascending a (keys d)
      → Ascending a (keys (insert_by key_le (k, v) d))
  unfolding insert_by
  Ascending-insert_by a k v [] le f h = (le, tt)
  Ascending-insert_by a k v ((j, w) ∷ d) le f h = ground (arith, Ascending-insert_by (suc j) k v d)

  pub sorted_items-Ascending :
      (d : Dict ℕ V) → Distinct (keys d) → Ascending 0 (keys (sorted_items d))
  unfolding sort_by
  sorted_items-Ascending [] h = tt
  sorted_items-Ascending ((k, v) ∷ d) h =
      Ascending-insert_by 0 k v (sorted_items d) (omega arith) (All-sorted_items (λ j. j ≢ k) d h.0)
        (sorted_items-Ascending d h.1)

  length-insert_by : (e : ℕ × V) (d : Dict ℕ V) → length (insert_by key_le e d) ≡ suc (length d)
  unfolding insert_by
  length-insert_by e [] = refl
  length-insert_by e (f ∷ d) = ground (arith, length-insert_by e d)

  pub length-sorted_items : (d : Dict ℕ V) → length (sorted_items d) ≡ length d
  unfolding sort_by
  length-sorted_items [] = refl
  length-sorted_items (e ∷ d) =
      omega (arith, length-insert_by e (sorted_items d), length-sorted_items d)
