-- ===== src/Wizard/Alignment.antt =====
-- backend/wizard/save.py: the saved paragraphs with their offsets.
pub mod Saved
use multi_tenant_rag_applica.Prelude.{
  ℕ, ◌+◌, suc, Bool, true, false, ◌&&◌, not, Option, none, some, List, [], ◌∷◌, ◌++◌, map, leb, ltb,
  nat_beq, length, if◌then◌else◌, contains, nat_eq,
}
use multi_tenant_rag_applica.Python.Text.{Text, is_empty}
use multi_tenant_rag_applica.Python.Object.{Object, none, list, elements}
use multi_tenant_rag_applica.Python.Exec.{Result, ok, err, type_error, value_error, bind, guard}
use multi_tenant_rag_applica.Mappings.Common.{positive_paragraph_id}
use multi_tenant_rag_applica.Mappings.DocumentMap.{Paragraphs}

-- `_SavedParagraph`
pub record SavedParagraph : Type 0 where
  pub paragraph_id : ℕ
  pub content : Text
  pub start : ℕ
  pub end_offset : ℕ

-- The loop over the items of the document.
unfoldable pub saved_from : ℕ → Paragraphs → List SavedParagraph
saved_from offset [] = []
saved_from offset ((paragraph_id, t) ∷ rest) =
    let stop = offset + length t in
    record { paragraph_id = paragraph_id; content = t; start = offset; end_offset = stop }
    ∷ saved_from stop rest

unfoldable pub saved_paragraphs : Paragraphs → List SavedParagraph
unfolding saved_from
saved_paragraphs paragraph_data = saved_from 0 paragraph_data
