-- ===== src/Processing/Splitter.antt =====
-- backend/processing/paragraph_splitter.py: a text is cut where the meaning changes. The regular
-- expressions of the configuration, the sentence encoder and its numbers are parameters.
pub mod Order
pub mod Lossless
use multi_tenant_rag_applica.Prelude.{
  ℕ, ◌+◌, Bool, true, false, ◌&&◌, ◌||◌, not, Option, none, some, List, [], ◌∷◌, ◌++◌, map, leb,
  nat_beq, length, take, drop, if◌then◌else◌,
}
use multi_tenant_rag_applica.Python.Text.{Text, strip, strip_right, is_empty}
use multi_tenant_rag_applica.Python.Object.{Object, str}
use multi_tenant_rag_applica.Python.Exec.{Result, ok, err, type_error, value_error, bind, guard}

-- `_SemanticUnit`
pub record SemanticUnit : Type 0 where
  pub start : ℕ
  pub end_offset : ℕ
  pub embedding_text : Text

-- The compiled patterns of `TEXT_PROCESSING`, by what the code asks of them: the substitution of
-- white space, three matches, and the spans that `finditer` yields.
pub record Patterns : Type 0 where
  pub collapse_whitespace : Text → Text
  pub matches_fence : Text → Bool
  pub matches_heading : Text → Bool
  pub matches_list_item : Text → Bool
  pub sentence_boundaries : Text → List (ℕ × ℕ)

-- The sentence encoder, with vectors `V` and similarities `S`.
pub record Encoder (V S : Type 0) : Type 0 where
  pub encode : List Text → Result (List V)
  pub has_dimensions : V → Bool
  pub is_finite_nonzero : V → Bool
  pub normalized : V → V
  pub cosine_similarity : V → V → S
  pub is_below : S → S → Bool
  pub is_unit_interval : S → Bool
  pub paragraph_threshold : S

-- `text[start:stop]`
unfoldable pub slice : ℕ → ℕ → Text → Text
slice start stop t = drop start (take stop t)

-- The characters that end a line for `str.splitlines`.
unfoldable pub is_line_break : ℕ → Bool
is_line_break c =
    leb 10 c && leb c 13
    || leb 28 c && leb c 30
    || nat_beq c 133
    || nat_beq c 8232
    || nat_beq c 8233

unfoldable pub begins_with_newline : Text → Bool
begins_with_newline [] = false
begins_with_newline (c ∷ cs) = nat_beq c 10

unfoldable pub put_first : ℕ → List Text → List Text
put_first c [] = (c ∷ []) ∷ []
put_first c (line ∷ lines) = (c ∷ line) ∷ lines

-- `str.splitlines(keepends=True)`, where `\r\n` is one line end.
unfoldable pub split_lines : Text → List Text
unfolding is_line_break begins_with_newline put_first
split_lines [] = []
split_lines (c ∷ cs) =
    let rest = split_lines cs in
    if is_line_break c && not (nat_beq c 13 && begins_with_newline cs)
    then (c ∷ []) ∷ rest
    else put_first c rest

-- The length of `line.rstrip("\r\n")`.
unfoldable pub content_length : Text → ℕ
content_length line = length (strip_right (λ c. nat_beq c 13 || nat_beq c 10) line)

module _ (p : Patterns) (t : Text) where
  unfoldable pub append_unit : ℕ → ℕ → List SemanticUnit
  unfolding slice
  append_unit start stop =
      let embedding_text = strip (p.collapse_whitespace (slice start stop t)) in
      if is_empty embedding_text
      then []
      else record { start = start; end_offset = stop; embedding_text = embedding_text } ∷ []

  -- The loop over the sentence boundaries of a line.
  unfoldable pub sentence_units : ℕ → ℕ → ℕ → List (ℕ × ℕ) → List SemanticUnit
  unfolding append_unit
  sentence_units line_start relative_start content_end [] =
      append_unit (line_start + relative_start) content_end
  sentence_units line_start relative_start content_end ((from, to) ∷ boundaries) =
      append_unit (line_start + relative_start) (line_start + from)
      ++ sentence_units line_start to content_end boundaries

  -- A line outside of a fence that does not open one.
  unfoldable pub line_units : ℕ → ℕ → Text → List SemanticUnit
  unfolding append_unit sentence_units
  line_units line_start content_end line_content =
      if is_empty (strip line_content)
      then []
      else if p.matches_heading line_content || p.matches_list_item line_content
      then append_unit line_start content_end
      else sentence_units line_start 0 content_end (p.sentence_boundaries line_content)

  unfoldable pub opens_fence : Text → Bool
  opens_fence line_content = not (is_empty (strip line_content)) && p.matches_fence line_content

  -- The loops over the lines. Inside of a fence, its start and the end of its last line are known.
  unfoldable pub units_from : ℕ → Option (ℕ × ℕ) → List Text → List SemanticUnit
  unfolding slice content_length append_unit line_units opens_fence
  units_from line_start none [] = []
  units_from line_start (some (block_start, block_end)) [] = append_unit block_start block_end
  units_from line_start none (line ∷ lines) =
      let content_end = line_start + content_length line in
      let line_content = slice line_start content_end t in
      let next = line_start + length line in
      let inside = units_from next (some (line_start, content_end)) lines in
      let outside = line_units line_start content_end line_content ++ units_from next none lines in
      if opens_fence line_content then inside else outside
  units_from line_start (some (block_start, block_end)) (line ∷ lines) =
      let content_end = line_start + content_length line in
      let next = line_start + length line in
      let closed = append_unit block_start content_end ++ units_from next none lines in
      let inside = units_from next (some (block_start, content_end)) lines in
      if p.matches_fence (slice line_start content_end t) then closed else inside

  unfoldable pub semantic_units : List SemanticUnit
  unfolding units_from split_lines
  semantic_units = if is_empty (strip t) then [] else units_from 0 none (split_lines t)

module _ {V S : Type 0} (p : Patterns) (e : Encoder V S) where
  unfoldable pub encode_sentences : List Text → Result (List V)
  encode_sentences sentences = bind (e.encode sentences) λ embeddings.
      bind (guard (nat_beq (length embeddings) (length sentences)) value_error) λ _.
        bind (guard (all_vectors e.has_dimensions embeddings) value_error) λ _.
          bind (guard (all_vectors e.is_finite_nonzero embeddings) value_error)
            λ _. ok (map e.normalized embeddings)
    where
      all_vectors : (V → Bool) → List V → Bool
      all_vectors test [] = true
      all_vectors test (v ∷ vs) = test v && all_vectors test vs

  -- The loop over the neighbouring units. There are as many vectors as units.
  unfoldable pub paragraphs_from : S → Text → ℕ → List SemanticUnit → List V → List Text
  unfolding slice
  paragraphs_from threshold t paragraph_start (u ∷ v ∷ units) (x ∷ y ∷ embeddings) =
      let boundary = v.start in
      let cut = paragraphs_from threshold t boundary (v ∷ units) (y ∷ embeddings) in
      let uncut = paragraphs_from threshold t paragraph_start (v ∷ units) (y ∷ embeddings) in
      if e.is_below (e.cosine_similarity x y) threshold
      then slice paragraph_start boundary t ∷ cut
      else uncut
  paragraphs_from threshold t paragraph_start _ _ = drop paragraph_start t ∷ []

  unfoldable pub validated_threshold : Option S → Result S
  validated_threshold similarity_threshold =
      let threshold : S = elim similarity_threshold [ none ↦ e.paragraph_threshold | some s ↦ s ] in
      bind (guard (e.is_unit_interval threshold) value_error) λ _. ok threshold

  unfoldable pub split_units : Text → Option S → List SemanticUnit → Result (List Text)
  unfolding encode_sentences paragraphs_from validated_threshold
  split_units t similarity_threshold [] = ok []
  split_units t similarity_threshold (u ∷ []) = ok (t ∷ [])
  split_units t similarity_threshold (u ∷ v ∷ units) =
      bind (validated_threshold similarity_threshold) λ threshold.
        bind (encode_sentences (map (λ w. w.embedding_text) (u ∷ v ∷ units)))
          λ embeddings. ok (paragraphs_from threshold t 0 (u ∷ v ∷ units) embeddings)

  unfoldable pub split_into_paragraphs : Object → Option S → Result (List Text)
  unfolding semantic_units split_units
  split_into_paragraphs (str t) similarity_threshold =
      split_units t similarity_threshold (semantic_units p t)
  split_into_paragraphs _ similarity_threshold = err type_error
