-- ===== src/Wizard/Alignment/Saved.antt =====
-- The offsets of `_saved_paragraphs` in backend/wizard/save.py.
use mathlib.Core.List.{flatten, append_assoc}
use multi_tenant_rag_applica.Prelude.{
  ℕ, suc, ◌+◌, ◌≡◌, refl, ◌∙◌, ap, [], ◌∷◌, ◌++◌, arith, length, take, All, length-append,
}
use multi_tenant_rag_applica.Python.Text.{Text}
use multi_tenant_rag_applica.Python.Dict.{values}
use multi_tenant_rag_applica.Mappings.DocumentMap.{Paragraphs}
use multi_tenant_rag_applica.Processing.Splitter.{slice}
use multi_tenant_rag_applica.Wizard.Alignment.{SavedParagraph, saved_from, saved_paragraphs}

take-append : (t rest : Text) → take (length t) (t ++ rest) ≡ t
take-append [] rest = refl
take-append (c ∷ t) rest = ap (◌∷◌ c) (take-append t rest)

slice-between :
    (before t rest : Text)
    → slice (length before) (length before + length t) (before ++ (t ++ rest)) ≡ t
unfolding slice
slice-between [] t rest = ground (arith, take-append t rest)
slice-between (c ∷ before) t rest =
    let e : suc (length before) + length t ≡ suc (length before + length t) = omega arith in
    rw e (slice-between before t rest)

-- The paragraph is what the text has between its offsets.
abbrev pub IsSlice : Text → SavedParagraph → Type 0
IsSlice t p = slice p.start p.end_offset t ≡ p.content

saved_from-IsSlice :
    (whole before : Text) (offset : ℕ) (d : Paragraphs)
    → before ++ flatten (values d) ≡ whole
    → offset ≡ length before
    → All (IsSlice whole) (saved_from offset d)
unfolding saved_from flatten
saved_from-IsSlice whole before offset [] e o = tt
saved_from-IsSlice whole before offset ((paragraph_id, t) ∷ d) e o = (
  rw (o, ← e) (slice-between before t (flatten (values d))),
  saved_from-IsSlice whole (before ++ t) (offset + length t) d
      (append_assoc before t (flatten (values d)) ∙ e) (omega (arith, o, length-append before t)),
)

-- Each saved paragraph is the slice of the document's text, which joins the paragraphs, between the
-- paragraph's offsets.
pub saved_paragraphs-IsSlice :
    (d : Paragraphs) → All (IsSlice (flatten (values d))) (saved_paragraphs d)
unfolding saved_paragraphs
saved_paragraphs-IsSlice d = saved_from-IsSlice (flatten (values d)) [] 0 d refl refl
