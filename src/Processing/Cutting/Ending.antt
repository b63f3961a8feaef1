-- ===== src/Processing/Cutting/Ending.antt =====
-- The loops of `_select_next_end` in backend/processing/chunker.py end.
use multi_tenant_rag_applica.Prelude.{
  ℕ, zero, suc, ◌+◌, ◌-◌, ◌/◌, ◌≤◌, ◌<◌, ◌≡◌, not, true, false, Bool, if◌then◌else◌, List, [], ◌∷◌,
  arith, leb, ltb, length, drop, nat_beq, Bool-cases, inl, inr, Option-cases,
}
use multi_tenant_rag_applica.Python.Text.{Text}
use multi_tenant_rag_applica.Python.Exec.{Result, ok, err, value_error, out_of_fuel, bind, guard}
use multi_tenant_rag_applica.Processing.Cutting.{
  Boundary, Chunking, tokens_of, search, shortened, whitespace_end, natural_end, available,
  size_candidates, with_remainder, token_limit, closest, prefix_end_for_limit, select_by_size,
  topic_change, select_next_end,
}

-- The fuel of the loops was enough.
abbrev pub Ends : {A : Type 0} → Result A → Type 0
Ends r = r ≡ err out_of_fuel → ⊥

pub Ends-ok : {A : Type 0} (a : A) → Ends (ok a)
Ends-ok a h = absurd (ground arith)

pub Ends-bind :
    {A B : Type 0} (m : Result A) (k : A → Result B)
    → Ends m
    → ((a : A) → Ends (k a))
    → Ends (bind m k)
Ends-bind (ok a) k h g = g a
Ends-bind (err x) k h g = λ e. h (ground (arith, e))

pub Ends-guard : (b : Bool) → Ends (guard b value_error)
Ends-guard true h = absurd (ground arith)
Ends-guard false h = absurd (ground arith)

pub Ends-if : {A : Type 0} (b : Bool) (r s : Result A) → Ends r → Ends s → Ends (if b then r else s)
Ends-if true r s h k = h
Ends-if false r s h k = k

module _ {S : Type 0} (token_count : Text → Result ℕ) (c : Chunking S)
    (counted : (t : Text) → Ends (token_count t)) (t : Text) (start : ℕ) where
  tokens_of-Ends : (stop : ℕ) → Ends (tokens_of token_count c t start stop)
  unfolding tokens_of
  tokens_of-Ends stop = counted _

  search-Ends :
      (fuel limit low high best : ℕ)
      → suc high ≤ low + fuel
      → 0 < low
      → Ends (search token_count c fuel t start limit low high best)
  unfolding search
  search-Ends zero limit low high best m l =
      let over : leb low high ≡ false = ground (arith, m) in rw over (Ends-ok best)
  search-Ends (suc fuel) limit low high best m l = elim (Bool-cases (leb low high)) [
    | inr over ↦ rw (over, search) (Ends-ok best)
    | inl inside ↦
        let order : low ≤ high = ground (arith, inside) in
        rw (inside, search)
          (Ends-bind (tokens_of token_count c t start ((low + high) / 2)) _
            (tokens_of-Ends ((low + high) / 2))
            (λ tokens. elim (Bool-cases (leb tokens limit)) [
              | inl b ↦ rw b (
                  search-Ends fuel limit (suc ((low + high) / 2)) high ((low + high) / 2)
                    (omega (arith, m, order)) (omega arith))
              | inr b ↦ rw b (
                  search-Ends fuel limit low ((low + high) / 2 - 1) best
                    (omega (arith, m, order, l)) l)
            ]))
  ]

  shortened-Ends : (limit count : ℕ) → Ends (shortened token_count c t start limit count)
  unfolding shortened
  shortened-Ends limit zero = Ends-ok start
  shortened-Ends limit (suc count) =
      Ends-bind (tokens_of token_count c t start (start + suc count)) _
        (tokens_of-Ends (start + suc count))
        (λ tokens.
          Ends-if (leb tokens limit) _ _ (Ends-ok (start + suc count)) (shortened-Ends limit count))

  natural_end-Ends : (best : ℕ) → Ends (natural_end token_count c t start best)
  unfolding natural_end
  natural_end-Ends best =
      let stop = whitespace_end token_count c t start (best - start) in
      Ends-if (ltb start stop) _ _
        (Ends-bind (tokens_of token_count c t start stop) _ (tokens_of-Ends stop)
          (λ tokens. Ends-ok (if leb c.min_tokens tokens then stop else best)))
        (Ends-ok best)

  prefix_end_for_limit-Ends : (limit : ℕ) → Ends (prefix_end_for_limit token_count c t start limit)
  unfolding prefix_end_for_limit
  prefix_end_for_limit-Ends limit =
      Ends-bind (search token_count c (length t) t start limit (suc start) (length t) start) _
        (search-Ends (length t) limit (suc start) (length t) start (omega arith) (omega arith))
        (λ found.
          Ends-bind (shortened token_count c t start limit (found - start)) _
            (shortened-Ends limit (found - start))
            (λ best.
              Ends-bind (guard (not (nat_beq best start)) value_error) _
                (Ends-guard (not (nat_beq best start))) (λ u. natural_end-Ends best)))

  available-Ends : (bs : List (Boundary S)) → Ends (available token_count c t start bs)
  unfolding available
  available-Ends [] = Ends-ok []
  available-Ends (b ∷ bs) =
      Ends-if (ltb start b.offset) _ _
        (Ends-bind (tokens_of token_count c t start b.offset) _ (tokens_of-Ends b.offset) (λ tokens.
          Ends-bind (available token_count c t start bs) _ (available-Ends bs)
            (λ later. Ends-ok (if leb tokens c.max_tokens then b ∷ later else later))))
        (available-Ends bs)

  size_candidates-Ends : (bs : List (Boundary S)) → Ends (size_candidates token_count c t start bs)
  unfolding size_candidates
  size_candidates-Ends [] = Ends-ok []
  size_candidates-Ends (b ∷ bs) =
      Ends-bind (tokens_of token_count c t start b.offset) _ (tokens_of-Ends b.offset) (λ tokens.
        Ends-bind (size_candidates token_count c t start bs) _ (size_candidates-Ends bs) (λ later.
          Ends-ok (if leb c.min_tokens tokens then (b.offset, tokens) ∷ later else later)))

  chosen-Ends :
      (limit : ℕ) (xs : List (ℕ × ℕ))
      → Ends (elim xs as (λ x. Result ℕ) [
        | [] ↦ prefix_end_for_limit token_count c t start limit
        | x ∷ rest ↦ ok (closest token_count c x rest).0
      ])
  chosen-Ends limit [] = prefix_end_for_limit-Ends limit
  chosen-Ends limit (x ∷ xs) = Ends-ok (closest token_count c x xs).0

  select_by_size-Ends :
      (remaining : ℕ) (bs : List (Boundary S))
      → Ends (select_by_size token_count c remaining t start bs)
  unfolding select_by_size
  select_by_size-Ends remaining bs =
      Ends-bind (size_candidates token_count c t start bs) _ (size_candidates-Ends bs) (λ sized.
        chosen-Ends (token_limit token_count c remaining)
          (with_remainder token_count c t remaining sized))

  pub select_next_end-Ends :
      (is_below : S → S → Bool) (bs : List (Boundary S)) (threshold : S)
      → Ends (select_next_end token_count c is_below t start bs threshold)
  unfolding select_next_end
  select_next_end-Ends is_below bs threshold =
      Ends-bind (token_count (drop start t)) _ (counted (drop start t)) (λ remaining.
        Ends-bind (available token_count c t start bs) _ (available-Ends bs) (λ later.
          elim (Option-cases (topic_change token_count c is_below threshold later)) [
            | inl e ↦ rw e (select_by_size-Ends remaining later)
            | inr (offset, e) ↦ rw e (Ends-ok offset)
          ]))
