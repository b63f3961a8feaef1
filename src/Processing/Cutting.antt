-- ===== src/Processing/Cutting.antt =====
-- backend/processing/chunker.py: where the next chunk of a paragraph ends.
pub mod Ending
use multi_tenant_rag_applica.Prelude.{
  ℕ, zero, suc, ◌+◌, ◌-◌, ◌/◌, Bool, true, false, ◌&&◌, ◌||◌, not, Option, none, some, List, [],
  ◌∷◌, ◌++◌, map, leb, ltb, length, drop, any, nat_beq, nat_eq, ◌==◌, list_eq, if◌then◌else◌,
}
use multi_tenant_rag_applica.Python.Text.{Text, is_space}
use multi_tenant_rag_applica.Python.Object.{Object, str}
use multi_tenant_rag_applica.Python.Exec.{
  Result, ok, err, type_error, value_error, runtime_error, out_of_fuel, key_error, bind, guard,
}
use multi_tenant_rag_applica.Python.Dict.{Dict, lookup, insert}
use multi_tenant_rag_applica.Processing.Splitter.{
  SemanticUnit, Patterns, Encoder, slice, semantic_units, encode_sentences, validated_threshold,
}

-- `_Boundary` and `_ChunkSpan`
pub record Boundary (S : Type 0) : Type 0 where
  pub offset : ℕ
  pub similarity : S

pub record ChunkSpan : Type 0 where
  pub start : ℕ
  pub end_offset : ℕ

-- `CHUNKING`, with the number 1 and the equality of similarities.
pub record Chunking (S : Type 0) : Type 0 where
  pub chunk_threshold : S
  pub target_tokens : ℕ
  pub min_tokens : ℕ
  pub max_tokens : ℕ
  pub one : S
  pub is_equal : S → S → Bool

-- `abs(m - n)`
unfoldable pub distance : ℕ → ℕ → ℕ
distance m n = (m - n) + (n - m)

-- The tokenizer may raise: `token_count` is the length of what `encode` returns.
module _ {S : Type 0} (token_count : Text → Result ℕ) (c : Chunking S) where
  -- `_token_count(text[start:end], tokenizer)`
  unfoldable pub tokens_of : Text → ℕ → ℕ → Result ℕ
  unfolding slice
  tokens_of t start end_offset = token_count (slice start end_offset t)

  -- The binary search. `midpoint - 1` is not below 0, since `low` is not 0.
  unfoldable pub search : ℕ → Text → ℕ → ℕ → ℕ → ℕ → ℕ → Result ℕ
  unfolding tokens_of
  search zero t start token_limit low high best = if leb low high then err out_of_fuel else ok best
  search (suc fuel) t start token_limit low high best = elim (leb low high) [
    | false ↦ ok best
    | true ↦
        let midpoint = (low + high) / 2 in
        bind (tokens_of t start midpoint) λ tokens. elim (leb tokens token_limit) [
          | true ↦ search fuel t start token_limit (suc midpoint) high midpoint
          | false ↦ search fuel t start token_limit low (midpoint - 1) best
        ]
  ]

  -- The loop that shortens what does not fit, from `start + count` down.
  unfoldable pub shortened : Text → ℕ → ℕ → ℕ → Result ℕ
  unfolding tokens_of
  shortened t start token_limit zero = ok start
  shortened t start token_limit (suc count) =
      let rest = shortened t start token_limit count in
      bind (tokens_of t start (start + suc count))
        λ tokens. if leb tokens token_limit then ok (start + suc count) else rest

  -- The loop to the last white space, from `start + count` down.
  unfoldable pub whitespace_end : Text → ℕ → ℕ → ℕ
  unfolding slice is_space
  whitespace_end t start zero = start
  whitespace_end t start (suc count) =
      let rest = whitespace_end t start count in
      if ends_with_space (slice (start + count) (start + suc count) t)
      then start + suc count
      else rest
    where
      ends_with_space : Text → Bool
      ends_with_space [] = false
      ends_with_space (x ∷ xs) = is_space x

  unfoldable pub natural_end : Text → ℕ → ℕ → Result ℕ
  unfolding tokens_of whitespace_end
  natural_end t start best =
      let stop = whitespace_end t start (best - start) in
      if ltb start stop
      then (bind (tokens_of t start stop)
          λ tokens. ok (if leb c.min_tokens tokens then stop else best))
      else ok best

  -- `_prefix_end_for_limit`
  unfoldable pub prefix_end_for_limit : Text → ℕ → ℕ → Result ℕ
  unfolding search shortened natural_end
  prefix_end_for_limit t start token_limit =
      bind (search (length t) t start token_limit (suc start) (length t) start) λ found.
        bind (shortened t start token_limit (found - start))
          λ best. bind (guard (not (nat_beq best start)) value_error) λ _. natural_end t start best

  -- The boundaries behind `start` that a chunk can end at.
  unfoldable pub available : Text → ℕ → List (Boundary S) → Result (List (Boundary S))
  unfolding tokens_of
  available t start [] = ok []
  available t start (b ∷ bs) =
      let rest = available t start bs in
      if ltb start b.offset
      then (bind (tokens_of t start b.offset)
          λ tokens. bind rest λ later. ok (if leb tokens c.max_tokens then b ∷ later else later))
      else rest

  unfoldable pub size_candidates : Text → ℕ → List (Boundary S) → Result (List (ℕ × ℕ))
  unfolding tokens_of
  size_candidates t start [] = ok []
  size_candidates t start (b ∷ bs) =
      let rest = size_candidates t start bs in
      bind (tokens_of t start b.offset) λ chunk_tokens. bind rest λ later.
        ok (if leb c.min_tokens chunk_tokens then (b.offset, chunk_tokens) ∷ later else later)

  -- `min` by the distance to the target and then by the offset: the first of the least.
  unfoldable pub is_closer : ℕ × ℕ → ℕ × ℕ → Bool
  unfolding distance
  is_closer (o, m) (p, n) =
      ltb (distance m c.target_tokens) (distance n c.target_tokens)
      || nat_beq (distance m c.target_tokens) (distance n c.target_tokens) && ltb o p

  unfoldable pub closest : ℕ × ℕ → List (ℕ × ℕ) → ℕ × ℕ
  unfolding is_closer
  closest best [] = best
  closest best (x ∷ xs) = closest (if is_closer x best then x else best) xs

  -- The whole remainder is a candidate too.
  unfoldable pub with_remainder : Text → ℕ → List (ℕ × ℕ) → List (ℕ × ℕ)
  with_remainder t remaining_tokens candidates =
      if leb remaining_tokens c.max_tokens
        && (not (nat_beq (length candidates) 0)
            || leb remaining_tokens (c.target_tokens + c.min_tokens))
      then candidates ++ (length t, remaining_tokens) ∷ []
      else candidates

  unfoldable pub token_limit : ℕ → ℕ
  token_limit remaining_tokens =
      if ltb (c.target_tokens + c.min_tokens) remaining_tokens
      then c.target_tokens
      else c.max_tokens

  unfoldable pub select_by_size : ℕ → Text → ℕ → List (Boundary S) → Result ℕ
  unfolding size_candidates closest with_remainder token_limit prefix_end_for_limit
  select_by_size remaining_tokens t start bs = bind (size_candidates t start bs) λ sized.
      elim (with_remainder t remaining_tokens sized) [
        | [] ↦ prefix_end_for_limit t start (token_limit remaining_tokens)
        | x ∷ xs ↦ ok (closest x xs).0
      ]

  module _ (is_below : S → S → Bool) where
    -- The first change of topic.
    unfoldable pub topic_change : S → List (Boundary S) → Option ℕ
    topic_change threshold [] = none
    topic_change threshold (b ∷ bs) =
        let rest = topic_change threshold bs in
        if is_below b.similarity threshold then some b.offset else rest

    -- `_select_next_end`
    unfoldable pub select_next_end : Text → ℕ → List (Boundary S) → S → Result ℕ
    unfolding available topic_change select_by_size
    select_next_end t start boundaries threshold =
        bind (token_count (drop start t)) λ remaining_tokens.
          bind (available t start boundaries) λ bs. elim (topic_change threshold bs) [
            | some offset ↦ ok offset
            | none ↦ select_by_size remaining_tokens t start bs
          ]
