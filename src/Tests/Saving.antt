-- ===== src/Tests/Saving.antt =====
-- The saved paragraphs of backend/wizard/save.py.
use mathlib.Core.List.{flatten}
use multi_tenant_rag_applica.Prelude.{[], ◌∷◌, All}
use multi_tenant_rag_applica.Python.Text.{text}
use multi_tenant_rag_applica.Python.Dict.{values}
use multi_tenant_rag_applica.Mappings.DocumentMap.{Paragraphs}
use multi_tenant_rag_applica.Wizard.Alignment.{saved_paragraphs}
use multi_tenant_rag_applica.Wizard.Alignment.Saved.{IsSlice, saved_paragraphs-IsSlice}

abbrev two : Paragraphs
two = (1, text "a") ∷ (2, text "bcd") ∷ []

saved_paragraphs-IsSlice_example : All (IsSlice (flatten (values two))) (saved_paragraphs two)
saved_paragraphs-IsSlice_example = saved_paragraphs-IsSlice two
