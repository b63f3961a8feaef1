-- ===== src/Retrieval/Ranking/Cut.antt =====
-- The adaptive cut of backend/rag/retrieval.py, at the largest gap between two scores.
use multi_tenant_rag_applica.Prelude.{
  ℕ, suc, ◌≤◌, ◌<◌, ◌≡◌, refl, sym, ◌∙◌, ap, true, some, List, [], ◌∷◌, map, arith, length,
  length-map, nat_eq, list_eq, Bool-cases, inl, inr, false, zero, All, get_elem?, Option-cases,
}
use multi_tenant_rag_applica.Python.Exec.{ok}
use multi_tenant_rag_applica.Retrieval.Floats.{Floats, IsOrdered}
use multi_tenant_rag_applica.Retrieval.Ranking.{
  Ranked, RetrievalConfig, sigmoid_score, gaps_of, largest_of, index_of, adaptive_k,
}
use multi_tenant_rag_applica.Retrieval.Ranking.Largest.{
  IsNumber, largest_of-IsNumber, largest_of-greatest, index_of-elem, found_lem, All-below,
  All-equal,
}

abbrev scores_of : (f : Floats) → List (Ranked f.Float) → List f.Float
scores_of f = map (λ candidate. sigmoid_score f candidate.rerank_score)

gaps_of-elem :
    (f : Floats) (xs : List f.Float) (i : ℕ) (g : f.Float)
    → get_elem? (gaps_of f xs) i ≡ some g
    → (x y : f.Float) × (get_elem? xs i ≡ some x)
      × (get_elem? xs (suc i) ≡ some y)
      × (g ≡ f.subtract x y)
unfolding gaps_of
gaps_of-elem f [] i g h = absurd (ground arith)
gaps_of-elem f (x ∷ []) i g h = absurd (ground arith)
gaps_of-elem f (x ∷ y ∷ xs) zero g h = (x, y, refl, refl, ground arith)
gaps_of-elem f (x ∷ y ∷ xs) (suc i) g h = gaps_of-elem f (y ∷ xs) i g h

-- Where the cut is: behind all candidates, where every gap between two scores is below the
-- threshold, or between the two scores of a gap that is not, and that no gap exceeds.
pub data IsCut (f : Floats) (threshold : f.Float) (scores : List f.Float) : ℕ → Type 0 where
  uncut :
      (k : ℕ)
      → k ≡ length scores
      → All (λ x. f.is_less x threshold ≡ true) (gaps_of f scores)
      → IsCut f threshold scores k
  at_gap :
      (i : ℕ) (x y : f.Float)
      → get_elem? scores i ≡ some x
      → get_elem? scores (suc i) ≡ some y
      → f.is_less (f.subtract x y) threshold ≡ false
      → All (λ gap. f.is_less (f.subtract x y) gap ≡ false) (gaps_of f scores)
      → IsCut f threshold scores (suc i)

get_elem?-bound :
    {A : Type 0} (xs : List A) (i : ℕ) (x : A) → get_elem? xs i ≡ some x → i < length xs
get_elem?-bound [] i x h = absurd (ground arith)
get_elem?-bound (y ∷ xs) zero x h = omega arith
get_elem?-bound (y ∷ xs) (suc i) x h = omega (arith, get_elem?-bound xs i x h)

module _ (f : Floats) (o : IsOrdered f) (config : RetrievalConfig f.Float) (c : Ranked f.Float)
    (cs : List (Ranked f.Float)) where
  abbrev CutsWell : Type 0
  CutsWell =
      (k : ℕ) × (adaptive_k f (c ∷ cs) config ≡ ok k)
      × (0 < k)
      × (k ≤ length (c ∷ cs))
      × IsCut f config.adaptive_gap_threshold (scores_of f (c ∷ cs)) k

  counted : length (c ∷ cs) ≡ length (scores_of f (c ∷ cs))
  counted = sym (length-map (c ∷ cs) (λ candidate. sigmoid_score f candidate.rerank_score))

  gap_cut :
      (gap : f.Float) (gaps : List f.Float) (i : ℕ)
      → gaps_of f (scores_of f (c ∷ cs)) ≡ gap ∷ gaps
      → All (IsNumber f o) (gap ∷ gaps)
      → f.is_less (largest_of f gap gaps) config.adaptive_gap_threshold ≡ false
      → index_of f (largest_of f gap gaps) (gap ∷ gaps) ≡ some i
      → CutsWell
  unfolding adaptive_k
  gap_cut gap gaps i g n b e =
      let top = largest_of f gap gaps in
      let (d, at, same) = index_of-elem f o top (gap ∷ gaps) i e in
      let (x, y, u, v, w) = gaps_of-elem f (scores_of f (c ∷ cs)) i d (rw g at) in
      let greatest =
        All-equal f o top d (gap ∷ gaps) same (largest_of-greatest f o gap gaps n.0 n.1) in
      let high : f.is_less d config.adaptive_gap_threshold ≡ false =
        ground (arith, b, o.equal_sym d top, o.equal_less top d config.adaptive_gap_threshold) in
      (
        suc i,
        rw (g, adaptive_k, b, e),
        omega arith,
        omega (arith, counted, get_elem?-bound (scores_of f (c ∷ cs)) (suc i) y v),
        at_gap i x y u v (rw (← w) high) (rw (← w, g) greatest),
      )

  cut_cases :
      (gaps : List f.Float)
      → gaps_of f (scores_of f (c ∷ cs)) ≡ gaps
      → length gaps ≡ length cs
      → All (IsNumber f o) gaps
      → CutsWell
  unfolding adaptive_k
  cut_cases [] g l n =
      (1, rw (g, adaptive_k), omega arith, omega arith, uncut 1 (omega (arith, counted)) (rw g tt))
  cut_cases (gap ∷ gaps) g l n =
      let top = largest_of f gap gaps in
      elim (Bool-cases (f.is_less top config.adaptive_gap_threshold)) [
        | inl b ↦ (
          length (c ∷ cs),
          rw (g, adaptive_k, b),
          omega arith,
          omega arith,
          uncut (length (c ∷ cs)) counted (
              rw g (
                All-below f o top config.adaptive_gap_threshold (gap ∷ gaps)
                  (largest_of-IsNumber f o gap gaps n.0 n.1) n b
                  (largest_of-greatest f o gap gaps n.0 n.1))),
        )
        | inr b ↦ elim (Option-cases (index_of f top (gap ∷ gaps))) [
          | inl e ↦ absurd (found_lem f o gap gaps n.0 n.1 e)
          | inr (i, e) ↦ gap_cut gap gaps i g n b e
        ]
      ]

length-gaps_of :
    (f : Floats) (x : f.Float) (xs : List f.Float) → length (gaps_of f (x ∷ xs)) ≡ length xs
unfolding gaps_of
length-gaps_of f x [] = refl
length-gaps_of f x (y ∷ xs) = ap suc (length-gaps_of f y xs)

-- Of a pool that is not empty, where no gap between the scores of two neighbours is NaN and numbers
-- are compared as `float` promises, the adaptive cut does not raise: it keeps all candidates where
-- every gap is below the threshold, and otherwise those before a gap that is not, and that no gap
-- exceeds. It keeps at least one candidate, and never more than there are.
pub adaptive_k-bounds :
    (f : Floats) (config : RetrievalConfig f.Float) (c : Ranked f.Float)
    (cs : List (Ranked f.Float))
    → IsOrdered f
    → All
        (λ gap. f.is_equal gap gap ≡ true)
        (gaps_of f (map (λ candidate. sigmoid_score f candidate.rerank_score) (c ∷ cs)))
    → (k : ℕ) × (adaptive_k f (c ∷ cs) config ≡ ok k)
      × (0 < k)
      × (k ≤ length (c ∷ cs))
      × IsCut f config.adaptive_gap_threshold
          (map (λ candidate. sigmoid_score f candidate.rerank_score) (c ∷ cs))
          k
adaptive_k-bounds f config c cs o n =
    cut_cases f o config c cs (gaps_of f (scores_of f (c ∷ cs))) refl
      (length-gaps_of f (sigmoid_score f c.rerank_score) (scores_of f cs)
        ∙ length-map cs (λ candidate. sigmoid_score f candidate.rerank_score))
      n
