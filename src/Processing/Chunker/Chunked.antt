-- ===== src/Processing/Chunker/Chunked.antt =====
-- What `chunk_paragraph` in backend/processing/chunker.py returns.
use multi_tenant_rag_applica.Prelude.{
  ℕ, ◌≤◌, ◌≡◌, ◌≢◌, ◌⊎◌, inl, inr, Bool, true, false, List, [], ◌∷◌, map, not, arith, All, ltb,
  length, nat_eq, ◌==◌, list_eq, eq_iff, some, Bool-cases,
}
use multi_tenant_rag_applica.Python.Text.{Text}
use multi_tenant_rag_applica.Python.Object.{str}
use multi_tenant_rag_applica.Python.Exec.{
  Result, Error, ok, err, out_of_fuel, runtime_error, guard, bind-eq-ok, ok_injective, Result-cases,
}
use multi_tenant_rag_applica.Python.Dict.{Dict}
use multi_tenant_rag_applica.Processing.Splitter.{
  SemanticUnit, Patterns, Encoder, slice, semantic_units, validated_threshold,
}
use multi_tenant_rag_applica.Processing.Cutting.{Boundary, ChunkSpan, Chunking}
use multi_tenant_rag_applica.Processing.Cutting.Ending.{Ends, Ends-ok, Ends-bind}
use multi_tenant_rag_applica.Processing.Chunker.{
  joined, any_above, spans_from, merge_small_compatible_chunks, chunks_of, boundary_similarities,
  chunk_units, chunk_paragraph,
}
use multi_tenant_rag_applica.Processing.Chunker.Looping.{
  spans_from-Ends, merge_small_compatible_chunks-Ends, any_above-Ends,
}

-- The chunk has been counted, and is within the maximum.
abbrev pub IsWithin : {S : Type 0} → (Text → Result ℕ) → Chunking S → Text → Type 0
IsWithin token_count c chunk = (n : ℕ) × (token_count chunk ≡ ok n) × (n ≤ c.max_tokens)

Ends-runtime : (b : Bool) → Ends (guard b runtime_error)
Ends-runtime true h = absurd (ground arith)
Ends-runtime false h = absurd (ground arith)

passed : (b : Bool) (u : Unit {0}) → guard b runtime_error ≡ ok u → b ≡ true
passed b u h = ground arith

module _ {S : Type 0} (token_count : Text → Result ℕ) (c : Chunking S)
    (is_below : S → S → Bool) where
  any_above-IsWithin :
      (chunks : List Text)
      → any_above token_count c is_below chunks ≡ ok false
      → All (IsWithin token_count c) chunks
  unfolding any_above
  any_above-IsWithin [] h = tt
  any_above-IsWithin (chunk ∷ chunks) h =
      let (n, e, h₁) = bind-eq-ok (token_count chunk) _ h in
      elim (Bool-cases (ltb c.max_tokens n)) [
        | inl b ↦ absurd (ground (arith, b, h₁))
        | inr b ↦ ((n, e, ground (arith, b)), any_above-IsWithin chunks (ground (arith, b, h₁)))
      ]

  module _ (t : Text) (bs : List (Boundary S)) (similarities : Dict ℕ S) (threshold : S) where
    chunks_of-Ends :
        ((u : Text) → Ends (token_count u))
        → Ends (chunks_of token_count c is_below t bs similarities threshold)
    unfolding chunks_of
    chunks_of-Ends counted =
        Ends-bind (spans_from token_count c is_below (length t) t bs threshold 0) _
          (spans_from-Ends token_count c is_below counted t (length t) bs threshold 0 (omega arith))
          (λ spans.
            Ends-bind (merge_small_compatible_chunks token_count c is_below t spans similarities) _
              (merge_small_compatible_chunks-Ends token_count c is_below counted t similarities
                spans)
              (λ merged.
                let chunks = map (λ (s : ChunkSpan). slice s.start s.end_offset t) merged in
                Ends-bind (any_above token_count c is_below chunks) _
                  (any_above-Ends token_count c is_below counted t chunks)
                  (λ above.
                    Ends-bind (guard (not above) runtime_error) _ (Ends-runtime (not above)) (λ u.
                      Ends-bind (guard (joined chunks == t) runtime_error) _
                        (Ends-runtime (joined chunks == t)) (λ v. Ends-ok chunks)))))

    chunks_of-IsWithin :
        (chunks : List Text)
        → chunks_of token_count c is_below t bs similarities threshold ≡ ok chunks
        → (joined chunks ≡ t) × All (IsWithin token_count c) chunks
    unfolding chunks_of
    chunks_of-IsWithin chunks h =
        let (spans, p, h₁) =
          bind-eq-ok (spans_from token_count c is_below (length t) t bs threshold 0) _ h in
        let (merged, q, h₂) =
          bind-eq-ok (merge_small_compatible_chunks token_count c is_below t spans similarities) _
            h₁ in
        let cut = map (λ (s : ChunkSpan). slice s.start s.end_offset t) merged in
        let (above, r, h₃) = bind-eq-ok (any_above token_count c is_below cut) _ h₂ in
        let (u, g, h₄) = bind-eq-ok (guard (not above) runtime_error) _ h₃ in
        let (v, k, h₅) = bind-eq-ok (guard (joined cut == t) runtime_error) _ h₄ in
        let same : joined cut ≡ t =
          ground (arith, passed (joined cut == t) v k, eq_iff (joined cut) t) in
        let below : above ≡ false = ground (arith, passed (not above) u g) in
        rw (← ok_injective h₅) (same, any_above-IsWithin cut (rw (← below) r))

-- A paragraph that has units, with a threshold in range and vectors from the encoder: whatever the
-- tokenizer answers, the loops end, and the chunks that are returned, joined, are the paragraph, and
-- each is counted and within the maximum; or an exception is raised. The tokenizer may raise any
-- exception; `out_of_fuel` is none.
pub chunk_paragraph-bounded :
    {V S : Type 0} (p : Patterns) (e : Encoder V S) (token_count : Text → Result ℕ) (c : Chunking S)
    (t : Text) (threshold : S) (u : SemanticUnit) (units : List SemanticUnit)
    (bs : List (Boundary S)) (similarities : Dict ℕ S)
    → ((s : Text) → token_count s ≢ err out_of_fuel)
    → semantic_units p t ≡ u ∷ units
    → e.is_unit_interval threshold ≡ true
    → boundary_similarities p e (u ∷ units) ≡ ok (bs, similarities)
    → ((chunks : List Text) × (chunk_paragraph p e token_count c (str t) (some threshold)
          ≡ ok chunks)
        × (joined chunks ≡ t)
        × All (IsWithin token_count c) chunks)
      ⊎ ((x : Error) × (chunk_paragraph p e token_count c (str t) (some threshold) ≡ err x)
          × (x ≢ out_of_fuel))
unfolding chunk_paragraph chunk_units validated_threshold
chunk_paragraph-bounded p e token_count c t threshold u units bs similarities counted split inside
      found =
    elim (Result-cases (chunks_of token_count c e.is_below t bs similarities threshold)) [
      | inl (chunks, r) ↦
          let (l, w) =
            chunks_of-IsWithin token_count c e.is_below t bs similarities threshold chunks r in
          inl (chunks, rw (split, chunk_units, inside, found) r, l, w)
      | inr (x, r) ↦ inr (
        x,
        rw (split, chunk_units, inside, found) r,
        λ same.
            chunks_of-Ends token_count c e.is_below t bs similarities threshold counted
              (rw (← same) r),
      )
    ]
