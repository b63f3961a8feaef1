-- ===== src/Tests/Splitting.antt =====
-- A text split by backend/processing/paragraph_splitter.py, with simple patterns: a `#` makes a
-- heading, a quotation mark a fence, and a space behind a stop ends a sentence.
use mathlib.Core.List.{flatten}
use multi_tenant_rag_applica.Prelude.{
  ℕ, suc, ◌+◌, ◌≤◌, ◌≡◌, refl, ◌⊎◌, Bool, true, false, ◌&&◌, none, List, [], ◌∷◌, arith, length,
  nat_beq, ltb, leb, if◌then◌else◌, Bool-cases, inl, inr,
}
use multi_tenant_rag_applica.Python.Text.{Text, text, strip, strip_right, strip_left, is_space}
use multi_tenant_rag_applica.Python.Exec.{ok}
use multi_tenant_rag_applica.Processing.Splitter.{
  Patterns, Encoder, semantic_units, split_into_paragraphs,
}
use multi_tenant_rag_applica.Processing.Splitter.Order.{Spans}
use multi_tenant_rag_applica.Processing.Splitter.Lossless.{split_into_paragraphs-lossless}

unfoldable pub begins : ℕ → Text → Bool
begins c [] = false
begins c (d ∷ t) = nat_beq c d

-- The spaces that follow a stop.
unfoldable pub ends_from : ℕ → Bool → Text → List (ℕ × ℕ)
ends_from i stop [] = []
ends_from i stop (c ∷ t) =
    let rest = ends_from (suc i) (nat_beq c 46) t in
    if stop && nat_beq c 32 then (i, suc i) ∷ rest else rest

ends_from-Spans :
    (a i n : ℕ) (stop : Bool) (t : Text) → a ≤ i → i + length t ≤ n → Spans a n (ends_from i stop t)
unfolding ends_from
ends_from-Spans a i n stop [] h k = tt
ends_from-Spans a i n stop (c ∷ t) h k = elim (Bool-cases (stop && nat_beq c 32)) [
  | inl e ↦ rw e (
    h,
    omega arith,
    omega (arith, k),
    ends_from-Spans (suc i) (suc i) n (nat_beq c 46) t (omega arith) (omega (arith, k)),
  )
  | inr e ↦
      rw e (ends_from-Spans a (suc i) n (nat_beq c 46) t (omega (arith, h)) (omega (arith, k)))
]

abbrev pub simple : Patterns
simple = record {
  collapse_whitespace = λ t. t;
  matches_fence = begins 34;
  matches_heading = begins 35;
  matches_list_item = begins 45;
  sentence_boundaries = ends_from 0 false;
}

unfoldable pub first_character : List Text → List ℕ
first_character [] = []
first_character ((c ∷ t) ∷ ts) = c ∷ first_character ts
first_character ([] ∷ ts) = 0 ∷ first_character ts

-- Units that begin with the same character are similar.
abbrev pub by_first_character : Encoder ℕ ℕ
by_first_character = record {
  encode = λ ts. ok (first_character ts);
  has_dimensions = λ v. true;
  is_finite_nonzero = λ v. true;
  normalized = λ v. v;
  cosine_similarity = λ v w. if nat_beq v w then 1 else 0;
  is_below = ltb;
  is_unit_interval = λ s. leb s 1;
  paragraph_threshold = 1;
}

abbrev sample : Text
sample = text "# Title\nAa b. Ac. Bd e.\nBf.\n"

abbrev pieces : List Text
pieces = text "# Title\n" ∷ text "Aa b. Ac. " ∷ text "Bd e.\nBf.\n" ∷ []

split_into_paragraphs-lossless_example :
    ((semantic_units simple sample ≡ []) × (pieces ≡ [])) ⊎ (flatten pieces ≡ sample)
unfolding split_into_paragraphs begins ends_from first_character strip strip_right strip_left
    is_space
split_into_paragraphs-lossless_example =
    split_into_paragraphs-lossless simple by_first_character sample none pieces
      (λ s. ends_from-Spans 0 0 (length s) false s (omega arith) (omega arith)) refl
