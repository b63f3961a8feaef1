-- ===== src/Tests/Chunking.antt =====
-- A paragraph chunked by backend/processing/chunker.py, with one token for each character.
use multi_tenant_rag_applica.Prelude.{
  ℕ, ◌≡◌, ◌≢◌, ◌⊎◌, refl, some, List, [], ◌∷◌, All, arith, length, nat_beq, if◌then◌else◌,
}
use multi_tenant_rag_applica.Python.Text.{Text, text, strip, strip_right, strip_left, is_space}
use multi_tenant_rag_applica.Python.Object.{str}
use multi_tenant_rag_applica.Python.Exec.{
  Result, Error, ok, err, runtime_error, value_error, out_of_fuel,
}
use multi_tenant_rag_applica.Python.Dict.{Dict}
use multi_tenant_rag_applica.Processing.Splitter.{SemanticUnit, semantic_units}
use multi_tenant_rag_applica.Processing.Cutting.{Boundary, Chunking}
use multi_tenant_rag_applica.Processing.Chunker.{joined, boundary_similarities, chunk_paragraph}
use multi_tenant_rag_applica.Processing.Chunker.Chunked.{IsWithin, chunk_paragraph-bounded}
use multi_tenant_rag_applica.Tests.Splitting.{simple, by_first_character}

abbrev sizes : Chunking ℕ
sizes = record {
  chunk_threshold = 1;
  target_tokens = 6;
  min_tokens = 3;
  max_tokens = 9;
  one = 1;
  is_equal = nat_beq;
}

abbrev paragraph : Text
paragraph = text "Aa. Ab. Bcdefghijklmn."

abbrev units : List SemanticUnit
units =
    record { start = 4; end_offset = 7; embedding_text = text "Ab." }
    ∷ record { start = 8; end_offset = 22; embedding_text = text "Bcdefghijklmn." }
    ∷ []

abbrev boundaries : List (Boundary ℕ)
boundaries = record { offset = 4; similarity = 1 } ∷ record { offset = 8; similarity = 0 } ∷ []

abbrev characters : Text → Result ℕ
characters t = ok (length t)

-- The change of topic is the first cut, the second is in a word.
chunked :
    chunk_paragraph simple by_first_character characters sizes (str paragraph) (some 1)
    ≡ ok (text "Aa. Ab. " ∷ text "Bcdefg" ∷ text "hijklmn." ∷ [])
unfolding chunk_paragraph strip strip_right strip_left
    multi_tenant_rag_applica.Tests.Splitting.begins
    multi_tenant_rag_applica.Tests.Splitting.ends_from
    multi_tenant_rag_applica.Tests.Splitting.first_character
chunked = refl

-- The special token of a tokenizer is refused, at the first count.
abbrev refusing : Text → Result ℕ
refusing t = err value_error

refused :
    chunk_paragraph simple by_first_character refusing sizes (str paragraph) (some 1)
    ≡ err value_error
unfolding chunk_paragraph strip strip_right strip_left
    multi_tenant_rag_applica.Tests.Splitting.begins
    multi_tenant_rag_applica.Tests.Splitting.ends_from
    multi_tenant_rag_applica.Tests.Splitting.first_character
refused = refl

chunk_paragraph-bounded_example :
    ((chunks : List Text) × (chunk_paragraph simple by_first_character characters sizes
          (str paragraph)
          (some 1)
        ≡ ok chunks)
      × (joined chunks ≡ paragraph)
      × All (IsWithin characters sizes) chunks)
    ⊎ ((x : Error) × (chunk_paragraph simple by_first_character characters sizes
            (str paragraph)
            (some 1)
          ≡ err x)
        × (x ≢ out_of_fuel))
unfolding semantic_units strip strip_right strip_left is_space
    multi_tenant_rag_applica.Tests.Splitting.begins
    multi_tenant_rag_applica.Tests.Splitting.ends_from boundary_similarities
    multi_tenant_rag_applica.Tests.Splitting.first_character
    multi_tenant_rag_applica.Python.Dict.insert
chunk_paragraph-bounded_example =
    chunk_paragraph-bounded simple by_first_character characters sizes paragraph 1
      (record { start = 0; end_offset = 3; embedding_text = text "Aa." }) units boundaries
      ((4, 1) ∷ (8, 0) ∷ []) (λ s h. absurd (ground arith)) refl refl refl

-- A tokenizer that counts more tokens for the five characters up to the white space than for the
-- six that fit.
abbrev uneven : Text → Result ℕ
uneven t = ok (if nat_beq (length t) 5 then 20 else length t)

-- The cut at white space is not compared with the limit, so that the last check of the chunks fails.
uneven_cut :
    chunk_paragraph simple by_first_character uneven sizes (str (text "Bcde fghijklmn.")) (some 1)
    ≡ err runtime_error
unfolding chunk_paragraph strip strip_right strip_left
    multi_tenant_rag_applica.Tests.Splitting.begins
    multi_tenant_rag_applica.Tests.Splitting.ends_from
uneven_cut = refl
