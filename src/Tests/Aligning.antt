-- ===== src/Tests/Aligning.antt =====
-- An edit aligned by backend/wizard/save.py with the saved paragraphs.
use multi_tenant_rag_applica.Prelude.{
  ℕ, ◌≡◌, refl, true, false, List, [], ◌∷◌, All, contains, nat_eq, list_eq,
}
use mathlib.Core.List.{flatten}
use multi_tenant_rag_applica.Python.Text.{Text, text}
use multi_tenant_rag_applica.Python.Exec.{ok, traverse}
use multi_tenant_rag_applica.Mappings.DocumentMap.{Paragraphs}
use multi_tenant_rag_applica.Wizard.Alignment.{SavedParagraph, saved_paragraphs}
use multi_tenant_rag_applica.Wizard.Unions.{
  Opcode, derived_modified_ids, contiguous_groups, align_unions,
}
use multi_tenant_rag_applica.Wizard.Unions.Marked.{IsApart, derived_modified_ids-IsApart}
use multi_tenant_rag_applica.Wizard.Unions.Groups.{
  AreGroups, IsAscending, contiguous_groups-AreGroups,
}

abbrev document : Paragraphs
document = (1, text "ab") ∷ (2, text "cd") ∷ (3, text "ef") ∷ []

-- `cd` becomes `xyz`.
abbrev opcodes : List Opcode
opcodes =
    record { is_equal = true; old_start = 0; old_end = 2; current_start = 0; current_end = 2 }
    ∷ record { is_equal = false; old_start = 2; old_end = 4; current_start = 2; current_end = 5 }
    ∷ record { is_equal = true; old_start = 4; old_end = 6; current_start = 5; current_end = 7 }
    ∷ []

abbrev get_opcodes : Text → Text → List Opcode
get_opcodes a b = opcodes

aligned :
    align_unions get_opcodes (saved_paragraphs document) (text "abxyzef") []
    ≡ ok (record { paragraph_ids = 2 ∷ []; current_text = text "xyz" } ∷ [])
unfolding align_unions saved_paragraphs traverse contains flatten
aligned = refl

-- A hint adds its paragraph to the group.
hinted :
    align_unions get_opcodes (saved_paragraphs document) (text "abxyzef") (3 ∷ [])
    ≡ ok (record { paragraph_ids = 2 ∷ 3 ∷ []; current_text = text "xyzef" } ∷ [])
unfolding align_unions saved_paragraphs traverse contains flatten
hinted = refl

abbrev third : SavedParagraph
third = record { paragraph_id = 3; content = text "ef"; start = 4; end_offset = 6 }

marked : derived_modified_ids (saved_paragraphs document) opcodes ≡ ok (2 ∷ [])
unfolding derived_modified_ids saved_paragraphs
marked = refl

derived_modified_ids-IsApart_example : All (λ o. o.is_equal ≡ false → IsApart third o) opcodes
unfolding saved_paragraphs contains
derived_modified_ids-IsApart_example =
    derived_modified_ids-IsApart document opcodes (2 ∷ []) 2 third marked refl refl

groups : contiguous_groups (7 ∷ 2 ∷ 3 ∷ 2 ∷ []) ≡ (2 ∷ 3 ∷ []) ∷ (7 ∷ []) ∷ []
unfolding contiguous_groups
groups = refl

contiguous_groups-AreGroups_example :
    AreGroups (contiguous_groups (7 ∷ 2 ∷ 3 ∷ 2 ∷ []))
    × IsAscending (flatten (contiguous_groups (7 ∷ 2 ∷ 3 ∷ 2 ∷ [])))
    × ((k : ℕ)
        → contains k (flatten (contiguous_groups (7 ∷ 2 ∷ 3 ∷ 2 ∷ [])))
          ≡ contains k (7 ∷ 2 ∷ 3 ∷ 2 ∷ []))
contiguous_groups-AreGroups_example = contiguous_groups-AreGroups (7 ∷ 2 ∷ 3 ∷ 2 ∷ [])
