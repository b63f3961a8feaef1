-- ===== src/Processing/Splitter/Lossless.antt =====
-- `split_into_paragraphs` of backend/processing/paragraph_splitter.py loses nothing.
use mathlib.Core.List.{flatten, append-nil}
use multi_tenant_rag_applica.Prelude.{
  ℕ, ◌≤◌, ◌≡◌, refl, ◌⊎◌, Option, List, [], ◌∷◌, ◌++◌, map, arith, length, drop, Bool-cases, inl,
  inr, zero, suc,
}
use multi_tenant_rag_applica.Python.Text.{Text}
use multi_tenant_rag_applica.Python.Object.{str}
use multi_tenant_rag_applica.Python.Exec.{ok, bind-eq-ok}
use multi_tenant_rag_applica.Processing.Splitter.{
  SemanticUnit, Patterns, Encoder, slice, semantic_units, paragraphs_from, split_units,
  split_into_paragraphs, validated_threshold, encode_sentences,
}
use multi_tenant_rag_applica.Processing.Splitter.Order.{Spans, From, From-semantic_units}

-- Two slices that meet are one.
pub slice-drop : (a b : ℕ) (t : Text) → a ≤ b → slice a b t ++ drop b t ≡ drop a t
unfolding slice
slice-drop zero zero t h = ground arith
slice-drop zero (suc b) [] h = ground arith
slice-drop zero (suc b) (c ∷ t) h = ground (arith, slice-drop zero b t (omega arith))
slice-drop (suc a) zero t h = absurd (omega (arith, h))
slice-drop (suc a) (suc b) [] h = ground arith
slice-drop (suc a) (suc b) (c ∷ t) h = ground (arith, slice-drop a b t (omega (arith, h)))

module _ {V S : Type 0} (p : Patterns) (e : Encoder V S) where
  paragraphs_from-lossless :
      (threshold : S) (t : Text) (a : ℕ) (units : List SemanticUnit) (embeddings : List V)
      → From a units
      → flatten (paragraphs_from p e threshold t a units embeddings) ≡ drop a t
  unfolding paragraphs_from flatten
  paragraphs_from-lossless threshold t a [] embeddings f = append-nil (drop a t)
  paragraphs_from-lossless threshold t a (u ∷ []) embeddings f = append-nil (drop a t)
  paragraphs_from-lossless threshold t a (u ∷ v ∷ units) [] f = append-nil (drop a t)
  paragraphs_from-lossless threshold t a (u ∷ v ∷ units) (x ∷ []) f = append-nil (drop a t)
  paragraphs_from-lossless threshold t a (u ∷ v ∷ units) (x ∷ y ∷ embeddings) (h, (k, f)) =
      elim (Bool-cases (e.is_below (e.cosine_similarity x y) threshold)) [
        | inl c ↦
            rw
              (
                c,
                paragraphs_from-lossless threshold t v.start (v ∷ units) (y ∷ embeddings)
                    (omega arith, f),
              )
              (slice-drop a v.start t (omega (arith, h, k)))
        | inr c ↦ rw c (
            paragraphs_from-lossless threshold t a (v ∷ units) (y ∷ embeddings)
              (omega (arith, h, k), f))
      ]

  split_units-lossless :
      (t : Text) (similarity_threshold : Option S) (units : List SemanticUnit)
      (paragraphs : List Text)
      → From 0 units
      → split_units p e t similarity_threshold units ≡ ok paragraphs
      → ((units ≡ []) × (paragraphs ≡ [])) ⊎ (flatten paragraphs ≡ t)
  unfolding split_units flatten
  split_units-lossless t s [] paragraphs f h = inl (refl, ground arith)
  split_units-lossless t s (u ∷ []) paragraphs f h =
      let one : t ∷ [] ≡ paragraphs = ground arith in inr (rw (← one) (append-nil t))
  split_units-lossless t s (u ∷ v ∷ units) paragraphs f h =
      let (threshold, a, h₁) = bind-eq-ok (validated_threshold p e s) _ h in
      let (embeddings, b, h₂) =
        bind-eq-ok (encode_sentences p e (map (λ w. w.embedding_text) (u ∷ v ∷ units))) _ h₁ in
      let found : paragraphs_from p e threshold t 0 (u ∷ v ∷ units) embeddings ≡ paragraphs =
        ground arith in
      inr (rw (← found) (paragraphs_from-lossless threshold t 0 (u ∷ v ∷ units) embeddings f))

-- When the sentence pattern finds spans in order and within the line, the paragraphs that
-- `split_into_paragraphs` returns are the text, cut into pieces, or none where the text has no
-- semantic unit.
pub split_into_paragraphs-lossless :
    {V S : Type 0} (p : Patterns) (e : Encoder V S) (t : Text) (similarity_threshold : Option S)
    (paragraphs : List Text)
    → ((s : Text) → Spans 0 (length s) (p.sentence_boundaries s))
    → split_into_paragraphs p e (str t) similarity_threshold ≡ ok paragraphs
    → ((semantic_units p t ≡ []) × (paragraphs ≡ [])) ⊎ (flatten paragraphs ≡ t)
unfolding split_into_paragraphs
split_into_paragraphs-lossless p e t similarity_threshold paragraphs finds_spans h =
    split_units-lossless p e t similarity_threshold (semantic_units p t) paragraphs
      (From-semantic_units p t finds_spans) h
