-- ===== src/Processing/Chunker/Looping.antt =====
-- The loops of `chunk_paragraph` and `_merge_small_compatible_chunks` in
-- backend/processing/chunker.py end.
use multi_tenant_rag_applica.Prelude.{
  ℕ, zero, suc, ◌+◌, ◌≤◌, ◌≡◌, refl, true, false, Bool, none, List, [], ◌∷◌, arith, leb, ltb,
  length, Bool-cases, inl, inr,
}
use multi_tenant_rag_applica.Python.Text.{Text}
use multi_tenant_rag_applica.Python.Exec.{Result, err, runtime_error, key_error}
use multi_tenant_rag_applica.Python.Dict.{Dict}
use multi_tenant_rag_applica.Processing.Cutting.{
  Boundary, ChunkSpan, Chunking, tokens_of, select_next_end,
}
use multi_tenant_rag_applica.Processing.Cutting.Ending.{
  Ends, Ends-ok, Ends-bind, Ends-if, select_next_end-Ends,
}
use multi_tenant_rag_applica.Processing.Chunker.{
  Move, advance, join_previous, join_following, spans_from, option_of, with_previous,
  with_following, direction, next_move, merge_from, merge_small_compatible_chunks, any_above,
}

Ends-raised : {A : Type 0} (r : Result A) → r ≡ err runtime_error → Ends r
Ends-raised r e = λ h. absurd (ground (arith, e, h))

module _ {S : Type 0} (token_count : Text → Result ℕ) (c : Chunking S) (is_below : S → S → Bool)
    (counted : (t : Text) → Ends (token_count t)) (t : Text) where
  pub spans_from-Ends :
      (fuel : ℕ) (bs : List (Boundary S)) (threshold : S) (start : ℕ)
      → length t ≤ start + fuel
      → Ends (spans_from token_count c is_below fuel t bs threshold start)
  unfolding spans_from
  spans_from-Ends zero bs threshold start m =
      let over : ltb start (length t) ≡ false = ground (arith, m) in rw over (Ends-ok [])
  spans_from-Ends (suc fuel) bs threshold start m = elim (Bool-cases (ltb start (length t))) [
    | inr over ↦ rw (over, spans_from) (Ends-ok [])
    | inl inside ↦
        rw (inside, spans_from)
          (Ends-bind (select_next_end token_count c is_below t start bs threshold) _
            (select_next_end-Ends token_count c counted t start is_below bs threshold)
            (λ stop. elim (Bool-cases (ltb start stop)) [
              | inr e ↦ rw e (Ends-raised _ refl)
              | inl e ↦ rw e (
                  Ends-bind (spans_from token_count c is_below fuel t bs threshold stop) _
                    (spans_from-Ends fuel bs threshold stop (ground (arith, m, e)))
                    (λ spans. Ends-ok (record { start = start; end_offset = stop } ∷ spans)))
            ]))
  ]

  module _ (similarities : Dict ℕ S) where
    option_of-Ends :
        (boundary start stop : ℕ)
        → Ends (option_of token_count c is_below t similarities boundary start stop)
    unfolding option_of tokens_of
    option_of-Ends boundary start stop =
        Ends-bind (tokens_of token_count c t start stop) _ (counted _) (λ tokens. Ends-ok _)

    with_previous-Ends :
        (current : ChunkSpan) (done : List ChunkSpan)
        → Ends (with_previous token_count c is_below t similarities current done)
    unfolding with_previous
    with_previous-Ends current [] = Ends-ok none
    with_previous-Ends current (p ∷ ps) = option_of-Ends current.start p.start current.end_offset

    with_following-Ends :
        (current : ChunkSpan) (rest : List ChunkSpan)
        → Ends (with_following token_count c is_below t similarities current rest)
    unfolding with_following
    with_following-Ends current [] = Ends-ok none
    with_following-Ends current (f ∷ fs) =
        option_of-Ends current.end_offset current.start f.end_offset

    next_move-Ends :
        (done : List ChunkSpan) (current : ChunkSpan) (rest : List ChunkSpan)
        → Ends (next_move token_count c is_below t similarities done current rest)
    unfolding next_move tokens_of
    next_move-Ends done current rest =
        Ends-bind (tokens_of token_count c t current.start current.end_offset) _ (counted _)
          (λ tokens. Ends-if (leb c.min_tokens tokens) _ _ (Ends-ok advance) (
            Ends-bind (with_previous token_count c is_below t similarities current done) _
              (with_previous-Ends current done)
              (λ previous.
                Ends-bind (with_following token_count c is_below t similarities current rest) _
                  (with_following-Ends current rest)
                  (λ following. Ends-ok (direction token_count c is_below previous following)))))

    -- What the loop does with this much fuel: those behind the index count twice.
    abbrev Merges : ℕ → Type 0
    Merges fuel =
        (done rest : List ChunkSpan)
        → length rest + length rest + length done ≤ fuel
        → Ends (merge_from token_count c is_below fuel t similarities done rest)

    moved :
        (fuel : ℕ) (done : List ChunkSpan) (current : ChunkSpan) (rest : List ChunkSpan)
        (move : Move)
        → Merges fuel
        → length (current ∷ rest) + length (current ∷ rest) + length done ≤ suc fuel
        → Ends (elim move as (λ x. Result (List ChunkSpan)) [
          | advance ↦ merge_from token_count c is_below fuel t similarities (current ∷ done) rest
          | join_previous ↦ (elim done [
            | [] ↦ err key_error
            | p ∷ ps ↦
                merge_from token_count c is_below fuel t similarities ps
                  (record { start = p.start; end_offset = current.end_offset } ∷ rest)
          ])
          | join_following ↦ (elim rest [
            | [] ↦ err key_error
            | f ∷ fs ↦
                merge_from token_count c is_below fuel t similarities done
                  (record { start = current.start; end_offset = f.end_offset } ∷ fs)
          ])
        ])
    moved fuel done current rest advance e m = e (current ∷ done) rest (omega (arith, m))
    moved fuel [] current rest join_previous e m = λ h. absurd (ground arith)
    moved fuel (p ∷ ps) current rest join_previous e m = e ps _ (omega (arith, m))
    moved fuel done current [] join_following e m = λ h. absurd (ground arith)
    moved fuel done current (f ∷ fs) join_following e m = e done _ (omega (arith, m))

    -- Each step makes the list shorter, or passes a chunk: those behind the index count twice.
    merge_from-Ends :
        (fuel : ℕ) (done rest : List ChunkSpan)
        → length rest + length rest + length done ≤ fuel
        → Ends (merge_from token_count c is_below fuel t similarities done rest)
    unfolding merge_from
    merge_from-Ends zero done [] m = Ends-ok _
    merge_from-Ends (suc fuel) done [] m = Ends-ok _
    merge_from-Ends zero done (current ∷ rest) m = absurd (omega (arith, m))
    merge_from-Ends (suc fuel) done (current ∷ rest) m =
        Ends-bind (next_move token_count c is_below t similarities done current rest) _
          (next_move-Ends done current rest)
          (λ move. moved fuel done current rest move (merge_from-Ends fuel) m)

    pub merge_small_compatible_chunks-Ends :
        (spans : List ChunkSpan)
        → Ends (merge_small_compatible_chunks token_count c is_below t spans similarities)
    unfolding merge_small_compatible_chunks
    merge_small_compatible_chunks-Ends spans =
        merge_from-Ends (length spans + length spans) [] spans (omega arith)

  pub any_above-Ends : (chunks : List Text) → Ends (any_above token_count c is_below chunks)
  unfolding any_above
  any_above-Ends [] = Ends-ok false
  any_above-Ends (chunk ∷ chunks) =
      Ends-bind (token_count chunk) _ (counted chunk)
        (λ tokens. Ends-if (ltb c.max_tokens tokens) _ _ (Ends-ok true) (any_above-Ends chunks))
