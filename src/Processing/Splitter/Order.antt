-- ===== src/Processing/Splitter/Order.antt =====
-- The units of backend/processing/paragraph_splitter.py stand in the order of the text.
use mathlib.Core.List.{append_assoc, append-nil}
use multi_tenant_rag_applica.Prelude.{
  ℕ, ◌+◌, ◌-◌, ◌≤◌, Bool, ◌||◌, Option, none, some, List, [], ◌∷◌, ◌++◌, arith, nat_beq, length,
  take, drop, Bool-cases, inl, inr, zero, suc,
}
use multi_tenant_rag_applica.Python.Text.{Text, strip, strip_right, is_empty}
use multi_tenant_rag_applica.Processing.Splitter.{
  SemanticUnit, Patterns, slice, split_lines, content_length, append_unit, sentence_units,
  line_units, opens_fence, units_from, semantic_units,
}

-- The spans are in order, do not overlap and end within `n`.
abbrev pub Spans : ℕ → ℕ → List (ℕ × ℕ) → Type 0
Spans a n [] = Unit
Spans a n ((from, to) ∷ spans) = (a ≤ from) × (from ≤ to) × (to ≤ n) × Spans to n spans

-- The units start at `a` or later, in order.
abbrev pub From : ℕ → List SemanticUnit → Type 0
From a [] = Unit
From a (u ∷ us) = (a ≤ u.start) × From u.start us

From-le : (a b : ℕ) (us : List SemanticUnit) → a ≤ b → From b us → From a us
From-le a b [] h f = tt
From-le a b (u ∷ us) h f = (omega (arith, f.0), f.1)

length-strip_right : (drops : ℕ → Bool) (t : Text) → length (strip_right drops t) ≤ length t
unfolding strip_right
length-strip_right drops [] = omega arith
length-strip_right drops (c ∷ cs) = ground (arith, length-strip_right drops cs)

length-take : (n : ℕ) (t : Text) → length (take n t) ≤ n
length-take zero t = ground arith
length-take (suc n) [] = omega arith
length-take (suc n) (c ∷ cs) = omega (arith, length-take n cs)

length-drop : (n : ℕ) (t : Text) → length (drop n t) ≤ length t - n
length-drop zero t = omega arith
length-drop (suc n) [] = omega arith
length-drop (suc n) (c ∷ cs) = omega (arith, length-drop n cs)

length-slice : (a n : ℕ) (t : Text) → length (slice a (a + n) t) ≤ n
unfolding slice
length-slice a n t = omega (arith, length-drop a (take (a + n) t), length-take (a + n) t)

module _ (p : Patterns) (t : Text) where
  From-append_unit :
      (a start stop next : ℕ) (rest : List SemanticUnit)
      → a ≤ start
      → start ≤ next
      → From next rest
      → From a (append_unit p t start stop ++ rest)
  unfolding append_unit
  From-append_unit a start stop next rest h k f =
      elim (Bool-cases (is_empty (strip (p.collapse_whitespace (slice start stop t))))) [
        | inl e ↦ rw e (From-le a next rest (omega (arith, h, k)) f)
        | inr e ↦ rw e (h, From-le start next rest k f)
      ]

  -- The units of a line, and those behind it.
  From-sentence_units :
      (line_start relative_start content_end n next : ℕ) (spans : List (ℕ × ℕ))
      (rest : List SemanticUnit)
      → Spans relative_start n spans
      → line_start + relative_start ≤ next
      → line_start + n ≤ next
      → From next rest
      → From
          (line_start + relative_start)
          (sentence_units p t line_start relative_start content_end spans ++ rest)
  unfolding sentence_units
  From-sentence_units line_start relative_start content_end n next [] rest s h k f =
      From-append_unit (line_start + relative_start) (line_start + relative_start) content_end next
        rest (omega arith) h f
  From-sentence_units line_start relative_start content_end n next ((from, to) ∷ spans) rest
        (a, b, c, s) h k f =
      rw
        (append_assoc (append_unit p t (line_start + relative_start) (line_start + from))
          (sentence_units p t line_start to content_end spans) rest)
        (From-append_unit (line_start + relative_start) (line_start + relative_start)
          (line_start + from) (line_start + to)
          (sentence_units p t line_start to content_end spans ++ rest) (omega arith)
          (omega (arith, a, b))
          (From-sentence_units line_start to content_end n next spans rest s (omega (arith, c, k)) k
            f))

  module _ (finds_spans : (s : Text) → Spans 0 (length s) (p.sentence_boundaries s)) where
    From-line_units :
        (line_start content_end next : ℕ) (line_content : Text) (rest : List SemanticUnit)
        → line_start + length line_content ≤ next
        → From next rest
        → From line_start (line_units p t line_start content_end line_content ++ rest)
    unfolding line_units
    From-line_units line_start content_end next line_content rest h f =
        elim (Bool-cases (is_empty (strip line_content))) [
          | inl e ↦ rw e (From-le line_start next rest (omega (arith, h)) f)
          | inr e ↦
              elim (Bool-cases
                (p.matches_heading line_content || p.matches_list_item line_content)) [
                  | inl g ↦
                      rw (e, g)
                        (From-append_unit line_start line_start content_end next rest (omega arith)
                          (omega (arith, h)) f)
                  | inr g ↦
                      rw (e, g)
                        (From-le line_start (line_start + 0)
                          (sentence_units p t line_start 0 content_end
                              (p.sentence_boundaries line_content)
                            ++ rest)
                          (omega arith)
                          (From-sentence_units line_start 0 content_end (length line_content) next
                            (p.sentence_boundaries line_content) rest (finds_spans line_content)
                            (omega (arith, h)) h f))
                ]
        ]

    -- The open fence, when there is one, starts before the line.
    abbrev Starts : ℕ → Option (ℕ × ℕ) → ℕ → Type 0
    Starts a none line_start = a ≤ line_start
    Starts a (some (block_start, block_end)) line_start =
        (a ≤ block_start) × (block_start ≤ line_start)

    length-content :
        (line_start : ℕ) (line : Text)
        → length (slice line_start (line_start + content_length line) t) ≤ length line
    unfolding content_length
    length-content line_start line = omega (
      arith,
      length-slice line_start (content_length line) t,
      length-strip_right (λ c. nat_beq c 13 || nat_beq c 10) line,
    )

    From-units_from :
        (a line_start : ℕ) (fence : Option (ℕ × ℕ)) (lines : List Text)
        → Starts a fence line_start
        → From a (units_from p t line_start fence lines)
    unfolding units_from
    From-units_from a line_start none [] h = tt
    From-units_from a line_start (some (block_start, block_end)) [] (h, k) =
        rw (← append-nil (append_unit p t block_start block_end))
          (From-append_unit a block_start block_end block_start [] h (omega arith) tt)
    From-units_from a line_start none (line ∷ lines) h =
        let content_end = line_start + content_length line in
        let line_content = slice line_start content_end t in
        let next = line_start + length line in
        let rest = units_from p t next none lines in
        elim (Bool-cases (opens_fence p t line_content)) [
          | inl e ↦
              rw e (From-units_from a next (some (line_start, content_end)) lines (h, omega arith))
          | inr e ↦ rw e (
              From-le a line_start (line_units p t line_start content_end line_content ++ rest) h (
                From-line_units line_start content_end next line_content rest
                  (omega (arith, length-content line_start line))
                  (From-units_from next next none lines (omega arith))))
        ]
    From-units_from a line_start (some (block_start, block_end)) (line ∷ lines) (h, k) =
        let content_end = line_start + content_length line in
        let line_content = slice line_start content_end t in
        let next = line_start + length line in
        let rest = units_from p t next none lines in
        elim (Bool-cases (p.matches_fence line_content)) [
          | inl e ↦ rw e (
              From-append_unit a block_start content_end next rest h (omega (arith, k))
                (From-units_from next next none lines (omega arith)))
          | inr e ↦
              rw e (
                From-units_from a next (some (block_start, content_end)) lines
                  (h, omega (arith, k)))
        ]

    pub From-semantic_units : From 0 (semantic_units p t)
    unfolding semantic_units
    From-semantic_units = elim (Bool-cases (is_empty (strip t))) [
      | inl e ↦ rw e tt
      | inr e ↦ rw e (From-units_from 0 0 none (split_lines t) (omega arith))
    ]
