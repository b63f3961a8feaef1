-- ===== src/Processing/Chunker.antt =====
-- backend/processing/chunker.py: a paragraph is cut into chunks of a limited number of tokens, by its
-- units and their similarities. The tokenizer is a parameter.
pub mod Looping
pub mod Chunked
use multi_tenant_rag_applica.Prelude.{
  ℕ, zero, suc, ◌+◌, ◌-◌, ◌/◌, Bool, true, false, ◌&&◌, ◌||◌, not, Option, none, some, List, [],
  ◌∷◌, ◌++◌, map, leb, ltb, length, drop, any, nat_beq, nat_eq, ◌==◌, list_eq, if◌then◌else◌,
}
use multi_tenant_rag_applica.Python.Text.{Text, is_space}
use multi_tenant_rag_applica.Python.Object.{Object, str}
use multi_tenant_rag_applica.Python.Exec.{
  Result, ok, err, type_error, value_error, runtime_error, out_of_fuel, key_error, bind, guard,
}
use multi_tenant_rag_applica.Python.Dict.{Dict, lookup, insert}
use multi_tenant_rag_applica.Processing.Splitter.{
  SemanticUnit, Patterns, Encoder, slice, semantic_units, encode_sentences, validated_threshold,
}
use multi_tenant_rag_applica.Processing.Cutting.{
  Boundary, ChunkSpan, Chunking, distance, tokens_of, search, shortened, whitespace_end,
  natural_end, prefix_end_for_limit, available, size_candidates, is_closer, closest, with_remainder,
  token_limit, select_by_size, topic_change, select_next_end,
}

-- `"".join(chunks)`
unfoldable pub joined : List Text → Text
joined [] = []
joined (c ∷ cs) = c ++ joined cs

-- What is to be done with a chunk that is too small.
pub data Move : Type 0 where
  advance join_previous join_following : Move

module _ {S : Type 0} (token_count : Text → Result ℕ) (c : Chunking S)
    (is_below : S → S → Bool) where
  -- The loop of `chunk_paragraph`.
  unfoldable pub spans_from : ℕ → Text → List (Boundary S) → S → ℕ → Result (List ChunkSpan)
  unfolding select_next_end
  spans_from zero t boundaries threshold chunk_start =
      if ltb chunk_start (length t) then err out_of_fuel else ok []
  spans_from (suc fuel) t boundaries threshold chunk_start = elim (ltb chunk_start (length t)) [
    | false ↦ ok []
    | true ↦
        bind (select_next_end token_count c is_below t chunk_start boundaries threshold)
          λ chunk_end. bind (guard (ltb chunk_start chunk_end) runtime_error) λ _.
            bind (spans_from fuel t boundaries threshold chunk_end)
              λ spans. ok (record { start = chunk_start; end_offset = chunk_end } ∷ spans)
  ]

  -- A neighbour that a small chunk may join: the similarity at the boundary and the distance.
  unfoldable pub option_of : Text → Dict ℕ S → ℕ → ℕ → ℕ → Result (Option (S × ℕ))
  unfolding tokens_of distance
  option_of t similarities boundary start end_offset =
      bind (tokens_of token_count c t start end_offset) λ combined_tokens.
        let similarity : S = elim (lookup boundary similarities) [ none ↦ c.one | some s ↦ s ] in
        ok (
          if leb combined_tokens c.max_tokens
          then some (similarity, distance combined_tokens c.target_tokens)
          else none)

  -- `max(options)`, where the previous chunk wins a draw.
  unfoldable pub direction : Option (S × ℕ) → Option (S × ℕ) → Move
  direction none none = advance
  direction (some p) none = join_previous
  direction none (some q) = join_following
  direction (some (s, m)) (some (r, n)) =
      if c.is_equal r s
      then (if ltb n m then join_following else join_previous)
      else if is_below s r
      then join_following
      else join_previous

  unfoldable pub with_previous :
      Text → Dict ℕ S → ChunkSpan → List ChunkSpan → Result (Option (S × ℕ))
  unfolding option_of
  with_previous t similarities current [] = ok none
  with_previous t similarities current (p ∷ ps) =
      option_of t similarities current.start p.start current.end_offset

  unfoldable pub with_following :
      Text → Dict ℕ S → ChunkSpan → List ChunkSpan → Result (Option (S × ℕ))
  unfolding option_of
  with_following t similarities current [] = ok none
  with_following t similarities current (f ∷ fs) =
      option_of t similarities current.end_offset current.start f.end_offset

  -- The chunks before the index, the nearest first, and those behind the current one.
  unfoldable pub next_move :
      Text → Dict ℕ S → List ChunkSpan → ChunkSpan → List ChunkSpan → Result Move
  unfolding tokens_of with_previous with_following direction
  next_move t similarities done current rest =
      bind (tokens_of token_count c t current.start current.end_offset) λ tokens.
        if leb c.min_tokens tokens
        then ok advance
        else (bind (with_previous t similarities current done) λ previous.
            bind (with_following t similarities current rest)
              λ following. ok (direction previous following))

  unfoldable pub restored : List ChunkSpan → List ChunkSpan → List ChunkSpan
  restored [] spans = spans
  restored (d ∷ done) spans = restored done (d ∷ spans)

  -- `_merge_small_compatible_chunks`: `done` is `merged[:index]` from its end.
  unfoldable pub merge_from :
      ℕ → Text → Dict ℕ S → List ChunkSpan → List ChunkSpan → Result (List ChunkSpan)
  unfolding next_move restored
  merge_from fuel t similarities done [] = ok (restored done [])
  merge_from zero t similarities done (current ∷ rest) = err out_of_fuel
  merge_from (suc fuel) t similarities done (current ∷ rest) =
      bind (next_move t similarities done current rest) λ move. elim move [
        | advance ↦ merge_from fuel t similarities (current ∷ done) rest
        | join_previous ↦ (elim done [
          | [] ↦ err key_error
          | p ∷ ps ↦
              merge_from fuel t similarities ps
                (record { start = p.start; end_offset = current.end_offset } ∷ rest)
        ])
        | join_following ↦ (elim rest [
          | [] ↦ err key_error
          | f ∷ fs ↦
              merge_from fuel t similarities done
                (record { start = current.start; end_offset = f.end_offset } ∷ fs)
        ])
      ]

  unfoldable pub merge_small_compatible_chunks :
      Text → List ChunkSpan → Dict ℕ S → Result (List ChunkSpan)
  unfolding merge_from
  merge_small_compatible_chunks t spans similarities =
      merge_from (length spans + length spans) t similarities [] spans

  -- `any(_token_count(chunk, tokenizer) > CHUNKING.max_tokens for chunk in chunks)`
  unfoldable pub any_above : List Text → Result Bool
  any_above [] = ok false
  any_above (chunk ∷ chunks) =
      let rest = any_above chunks in
      bind (token_count chunk) λ tokens. if ltb c.max_tokens tokens then ok true else rest

  -- From the boundaries to the checked chunks.
  unfoldable pub chunks_of : Text → List (Boundary S) → Dict ℕ S → S → Result (List Text)
  unfolding slice spans_from merge_small_compatible_chunks joined any_above
  chunks_of t boundaries similarities threshold =
      bind (spans_from (length t) t boundaries threshold 0) λ spans.
        bind (merge_small_compatible_chunks t spans similarities) λ merged.
          let chunks = map (λ span. slice span.start span.end_offset t) merged in
          bind (any_above chunks) λ above.
            bind (guard (not above) runtime_error)
              λ _. bind (guard (joined chunks == t) runtime_error) λ _. ok chunks

module _ {V S : Type 0} (p : Patterns) (e : Encoder V S) where
  unfoldable pub boundaries_from : List SemanticUnit → List V → List (Boundary S)
  boundaries_from (u ∷ v ∷ units) (x ∷ y ∷ embeddings) =
      record { offset = v.start; similarity = e.cosine_similarity x y }
      ∷ boundaries_from (v ∷ units) (y ∷ embeddings)
  boundaries_from _ _ = []

  unfoldable pub by_offset : List (Boundary S) → Dict ℕ S → Dict ℕ S
  by_offset [] d = d
  by_offset (b ∷ bs) d = by_offset bs (insert b.offset b.similarity d)

  -- `_boundary_similarities`, of the units of the paragraph
  unfoldable pub boundary_similarities : List SemanticUnit → Result (List (Boundary S) × Dict ℕ S)
  unfolding encode_sentences boundaries_from by_offset
  boundary_similarities (u ∷ v ∷ units) =
      bind (encode_sentences p e (map (λ w. w.embedding_text) (u ∷ v ∷ units))) λ embeddings.
        let boundaries = boundaries_from (u ∷ v ∷ units) embeddings in
        ok (boundaries, by_offset boundaries [])
  boundary_similarities _ = ok ([], [])

  unfoldable pub chunk_units :
      (Text → Result ℕ) → Chunking S → Text → Option S → List SemanticUnit → Result (List Text)
  unfolding validated_threshold boundary_similarities chunks_of
  chunk_units token_count c t similarity_threshold [] = ok []
  chunk_units token_count c t similarity_threshold (u ∷ units) =
      let threshold : S = elim similarity_threshold [ none ↦ c.chunk_threshold | some s ↦ s ] in
      bind (validated_threshold p e (some threshold)) λ valid.
        bind (boundary_similarities (u ∷ units)) λ (boundaries, similarities).
          chunks_of token_count c e.is_below t boundaries similarities valid

  unfoldable pub chunk_paragraph :
      (Text → Result ℕ) → Chunking S → Object → Option S → Result (List Text)
  unfolding semantic_units chunk_units
  chunk_paragraph token_count c (str t) similarity_threshold =
      chunk_units token_count c t similarity_threshold (semantic_units p t)
  chunk_paragraph token_count c _ similarity_threshold = err type_error
