-- ===== src/Retrieval/Diversity/Chosen.antt =====
-- The indices that `_mmr` of backend/rag/retrieval.py selects: distinct, in range, as many as asked.
use multi_tenant_rag_applica.Prelude.{
  ℕ, zero, suc, ◌+◌, ◌<◌, ◌≡◌, refl, true, false, ◌||◌, ◌⊎◌, inl, inr, List, [], ◌∷◌, ◌++◌, arith,
  length, length-append, min, ◌==◌, Eq, nat_eq, contains, contains_head, nodup, Bool-cases,
}
use multi_tenant_rag_applica.Python.Exec.{Result, ok}
use multi_tenant_rag_applica.Python.Sorting.{count_up}
use multi_tenant_rag_applica.Python.Sorting.Ascending.{contains-count_up}
use multi_tenant_rag_applica.Retrieval.Floats.{Floats}
use multi_tenant_rag_applica.Retrieval.Ranking.{Ranked, RetrievalConfig}
use multi_tenant_rag_applica.Retrieval.Diversity.{
  objective_of, best_index_of, removed, select_indices,
}

contains-removed : (k i : ℕ) (xs : List ℕ) → contains k (removed i xs) ≡ true → contains k xs ≡ true
unfolding removed contains
contains-removed k i [] h = h
contains-removed k i (x ∷ xs) h = ground (arith, contains-removed k i xs)

nodup-removed :
    (i : ℕ) (xs : List ℕ)
    → nodup xs ≡ true
    → (nodup (removed i xs) ≡ true) × (contains i (removed i xs) ≡ false)
unfolding removed nodup contains
nodup-removed i [] h = (refl, refl)
nodup-removed i (x ∷ xs) h = ground (arith, nodup-removed i xs, contains-removed x i xs)

length-removed :
    (i : ℕ) (xs : List ℕ) → contains i xs ≡ true → suc (length (removed i xs)) ≡ length xs
unfolding removed contains
length-removed i [] h = absurd (ground arith)
length-removed i (x ∷ xs) h = ground (arith, length-removed i xs)

module _ {ℓ} {A : Type ℓ} ⦃e : Eq A⦄ where
  pub contains-append :
      (k x : A) (xs : List A) → contains k (xs ++ x ∷ []) ≡ (contains k xs || x == k)
  unfolding contains
  contains-append k x [] = ground arith
  contains-append k x (y ∷ xs) = ground (arith, contains-append k x xs)

  pub nodup-append :
      (x : A) (xs : List A) → nodup xs ≡ true → contains x xs ≡ false → nodup (xs ++ x ∷ []) ≡ true
  unfolding nodup contains
  nodup-append x [] h k = refl
  nodup-append x (y ∷ xs) h k =
      ground (arith, nodup-append x xs, contains-append y x xs, e.beq_iff x y, e.beq_iff y x)

nodup-count_up : (a n : ℕ) → nodup (count_up a n) ≡ true
unfolding nodup
nodup-count_up a zero = refl
nodup-count_up a (suc n) = ground (arith, nodup-count_up (suc a) n, contains-count_up a (suc a) n)

pub length-count_up : (a n : ℕ) → length (count_up a n) ≡ n
length-count_up a zero = refl
length-count_up a (suc n) = omega (arith, length-count_up (suc a) n)

-- The indices below `count` that are selected and those that remain: no index twice.
pub record Selecting (count : ℕ) (remaining selected : List ℕ) : Type 0 where
  pub below : (k : ℕ) → contains k remaining ≡ true → k < count
  pub chosen : (k : ℕ) → contains k selected ≡ true → k < count
  pub apart : (k : ℕ) → contains k selected ≡ true → contains k remaining ≡ false
  pub unused : nodup remaining ≡ true
  pub once : nodup selected ≡ true

pub Selecting-start : (count : ℕ) → Selecting count (count_up 0 count) []
unfolding contains nodup
Selecting-start count = record {
  below = λ k h. omega (arith, contains-count_up k 0 count h);
  chosen = λ k h. absurd (ground arith);
  apart = λ k h. absurd (ground arith);
  unused = nodup-count_up 0 count;
  once = refl;
}

pub Selecting-step :
    (count best : ℕ) (remaining selected : List ℕ)
    → Selecting count remaining selected
    → contains best remaining ≡ true
    → Selecting count (removed best remaining) (selected ++ best ∷ [])
Selecting-step count best remaining selected s h = record {
  below = λ k c. s.below k (contains-removed k best remaining c);
  chosen = λ k c.
      ground (arith, contains-append k best selected, s.chosen k, s.below k, nat_eq.beq_iff best k);
  apart = λ k c. ground (
    arith,
    contains-append k best selected,
    s.apart k,
    contains-removed k best remaining,
    nat_eq.beq_iff best k,
    nodup-removed best remaining s.unused,
  );
  unused = (nodup-removed best remaining s.unused).0;
  once = nodup-append best selected s.once (ground (arith, s.apart best));
}

module _ (f : Floats) where
  -- The loop over what remains returns its start or one that remains, and raises only where an
  -- objective does.
  pub best_index_of-contains :
      (objective : ℕ → Result f.Float) (start : ℕ) (x : f.Float) (remaining : List ℕ)
      → ((k : ℕ) → contains k remaining ≡ true → (y : f.Float) × (objective k ≡ ok y))
      → (best : ℕ) × (best_index_of f objective start x remaining ≡ ok best)
        × ((best ≡ start) ⊎ (contains best remaining ≡ true))
  unfolding best_index_of contains
  best_index_of-contains objective start x [] t = (start, refl, inl refl)
  best_index_of-contains objective start x (i ∷ remaining) t =
      let (y, e) = t i (contains_head i remaining) in
      let (a, p, u) = best_index_of-contains objective i y remaining (λ k h. t k (ground arith)) in
      let (b, q, v) =
        best_index_of-contains objective start x remaining (λ k h. t k (ground arith)) in
      elim (Bool-cases (f.is_less x y)) [
        | inl c ↦ (a, rw (e, c) p, ground (arith, nat_eq.beq_iff i a))
        | inr c ↦ (b, rw (e, c) q, ground arith)
      ]

  module _ (config : RetrievalConfig f.Float) (pool : List (Ranked f.Float))
      (normalized : List f.Float) where
    pub select_indices-Selecting :
        (size : ℕ)
        → ((selected : List ℕ) (k : ℕ)
            → ((j : ℕ) → contains j selected ≡ true → j < size)
            → k < size
            → (y : f.Float) × (objective_of f config pool normalized selected k ≡ ok y))
        → (count : ℕ) (remaining selected : List ℕ) → Selecting size remaining selected
        → (result : List ℕ) × (select_indices f config pool normalized count remaining selected
            ≡ ok result)
          × (nodup result ≡ true)
          × ((k : ℕ) → contains k result ≡ true → k < size)
          × (length result ≡ length selected + min count (length remaining))
    unfolding select_indices
    select_indices-Selecting size t zero remaining selected s =
        (selected, refl, s.once, s.chosen, omega arith)
    select_indices-Selecting size t (suc count) [] selected s =
        (selected, refl, s.once, s.chosen, omega arith)
    select_indices-Selecting size t (suc count) (index ∷ remaining) selected s =
        let all_remaining = index ∷ remaining in
        let (best, e, place) =
          best_index_of-contains (objective_of f config pool normalized selected) index
            f.minus_infinity all_remaining (λ k h. t selected k s.chosen (s.below k h)) in
        let member : contains best all_remaining ≡ true =
          ground (arith, contains_head index remaining) in
        let (result, r, d, b, l) =
          select_indices-Selecting size t count (removed best all_remaining) (selected ++ best ∷ [])
            (Selecting-step size best all_remaining selected s member) in
        (
          result,
          rw e r,
          d,
          b,
          omega (
            arith,
            l,
            length-removed best all_remaining member,
            length-append selected (best ∷ []),
          ),
        )
