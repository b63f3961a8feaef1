-- ===== src/Wizard/Unions.antt =====
-- `_align_unions` of backend/wizard/save.py: the paragraphs that an edit touches, in groups of
-- neighbours, each with its part of the edited text. The opcodes of `difflib` are a parameter.
pub mod Marked
pub mod Groups
use multi_tenant_rag_applica.Prelude.{
  ℕ, zero, suc, ◌+◌, ◌-◌, Bool, true, false, ◌&&◌, ◌||◌, not, Option, none, some, List, [], ◌∷◌,
  ◌++◌, leb, ltb, nat_beq, ◌==◌, nat_eq, list_eq, contains, min, if◌then◌else◌,
}
use mathlib.Core.List.{flatten}
use multi_tenant_rag_applica.Python.Text.{Text, is_empty}
use multi_tenant_rag_applica.Python.Object as Object
use multi_tenant_rag_applica.Python.Object.{Object, list, elements}
use multi_tenant_rag_applica.Python.Exec.{
  Result, ok, err, type_error, value_error, key_error, bind, guard, traverse,
}
use multi_tenant_rag_applica.Python.Dict.{Dict, lookup, insert}
use multi_tenant_rag_applica.Processing.Splitter.{slice}
use multi_tenant_rag_applica.Mappings.Common.{positive_paragraph_id}
use multi_tenant_rag_applica.Wizard.Alignment.{SavedParagraph}

-- `Opcode`. Of the tags only `equal` is told from the others.
pub record Opcode : Type 0 where
  pub is_equal : Bool
  pub old_start : ℕ
  pub old_end : ℕ
  pub current_start : ℕ
  pub current_end : ℕ

pub record ParagraphUnion : Type 0 where
  pub paragraph_ids : List ℕ
  pub current_text : Text

-- A set of identifiers is a list, by its members. `sorted` of one has each member once.
unfoldable pub insert_id : ℕ → List ℕ → List ℕ
insert_id x [] = x ∷ []
insert_id x (y ∷ ys) =
    let behind = insert_id x ys in
    if ltb x y then x ∷ y ∷ ys else if nat_beq x y then y ∷ ys else y ∷ behind

unfoldable pub sorted_ids : List ℕ → List ℕ
unfolding insert_id
sorted_ids [] = []
sorted_ids (x ∷ xs) = insert_id x (sorted_ids xs)

-- The loop of `_validated_modified_ids`.
unfoldable pub checked_ids : List ℕ → List Object → Result (List ℕ)
checked_ids existing_ids [] = ok []
checked_ids existing_ids (raw_paragraph_id ∷ rest) =
    bind (positive_paragraph_id raw_paragraph_id) λ paragraph_id.
      bind (guard (contains paragraph_id existing_ids) value_error)
        λ _. bind (checked_ids existing_ids rest) λ validated. ok (paragraph_id ∷ validated)

unfoldable pub validated_modified_ids : Object → List ℕ → Result (List ℕ)
unfolding checked_ids
validated_modified_ids Object.none existing_ids = ok []
validated_modified_ids (list xs) existing_ids = checked_ids existing_ids (elements xs)
validated_modified_ids _ existing_ids = err type_error

-- The identifiers of the paragraphs that pass a test.
unfoldable pub ids_where : (SavedParagraph → Bool) → List SavedParagraph → List ℕ
ids_where test [] = []
ids_where test (p ∷ ps) =
    let rest = ids_where test ps in if test p then p.paragraph_id ∷ rest else rest

unfoldable pub paragraphs_overlapping : List SavedParagraph → ℕ → ℕ → List ℕ
unfolding ids_where
paragraphs_overlapping paragraphs start stop =
    ids_where (λ p. ltb p.start stop && ltb start p.end_offset) paragraphs

-- `paragraphs[-1]`, where `first` stands before the rest.
unfoldable pub last_of : SavedParagraph → List SavedParagraph → SavedParagraph
last_of first [] = first
last_of first (p ∷ ps) = last_of p ps

-- The members, or the other ones where there are none.
unfoldable pub first_nonempty : List ℕ → List ℕ → List ℕ
first_nonempty [] other = other
first_nonempty (x ∷ xs) other = x ∷ xs

unfoldable pub paragraphs_at_insertion : List SavedParagraph → ℕ → Result (List ℕ)
unfolding ids_where last_of first_nonempty
paragraphs_at_insertion [] position = err key_error
paragraphs_at_insertion (first ∷ rest) position =
    let last = last_of first rest in
    let containing =
      ids_where (λ p. ltb p.start position && ltb position p.end_offset) (first ∷ rest) in
    let adjacent =
      ids_where (λ p. nat_beq p.start position || nat_beq p.end_offset position) (first ∷ rest) in
    if leb position 0
    then ok (first.paragraph_id ∷ [])
    else if leb last.end_offset position
    then ok (last.paragraph_id ∷ [])
    else ok (first_nonempty containing (first_nonempty adjacent (last.paragraph_id ∷ [])))

-- What one opcode marks.
unfoldable pub touched_ids : List SavedParagraph → Opcode → Result (List ℕ)
unfolding paragraphs_overlapping paragraphs_at_insertion
touched_ids paragraphs o =
    if o.is_equal
    then ok []
    else if nat_beq o.old_start o.old_end
    then paragraphs_at_insertion paragraphs o.old_start
    else ok (paragraphs_overlapping paragraphs o.old_start o.old_end)

unfoldable pub derived_modified_ids : List SavedParagraph → List Opcode → Result (List ℕ)
unfolding touched_ids
derived_modified_ids paragraphs [] = ok []
derived_modified_ids paragraphs (o ∷ opcodes) =
    bind (touched_ids paragraphs o)
      λ ids. bind (derived_modified_ids paragraphs opcodes) λ modified. ok (ids ++ modified)

-- The loop over the sorted identifiers: the last group, its last member, and what follows.
unfoldable pub groups_from : List ℕ → ℕ → List ℕ → List (List ℕ)
groups_from group last [] = group ∷ []
groups_from group last (x ∷ xs) =
    let longer = groups_from (group ++ x ∷ []) x xs in
    let next = groups_from (x ∷ []) x xs in if nat_beq x (suc last) then longer else group ∷ next

unfoldable pub contiguous_groups : List ℕ → List (List ℕ)
unfolding sorted_ids groups_from
contiguous_groups ids = elim (sorted_ids ids) [ [] ↦ [] | x ∷ xs ↦ groups_from (x ∷ []) x xs ]

-- What one opcode says of a position in the saved text.
unfoldable pub positions_of : ℕ → Opcode → List ℕ
positions_of position o =
    if not (leb o.old_start position && leb position o.old_end)
    then []
    else if o.is_equal
    then (o.current_start + (position - o.old_start)) ∷ []
    else if nat_beq o.old_start o.old_end
    then o.current_start ∷ o.current_end ∷ []
    else if nat_beq position o.old_start
    then o.current_start ∷ []
    else if nat_beq position o.old_end
    then o.current_end ∷ []
    else o.current_start ∷ o.current_end ∷ []

unfoldable pub boundary_candidates : ℕ → List Opcode → List ℕ
unfolding positions_of
boundary_candidates position [] = []
boundary_candidates position (o ∷ opcodes) =
    positions_of position o ++ boundary_candidates position opcodes

unfoldable pub smallest : ℕ → List ℕ → ℕ
smallest x [] = x
smallest x (y ∷ ys) = smallest (if ltb y x then y else x) ys

unfoldable pub greatest : ℕ → List ℕ → ℕ
greatest x [] = x
greatest x (y ∷ ys) = greatest (if ltb x y then y else x) ys

-- `min` and `max`, which raise ValueError for no candidate as the code itself does.
unfoldable pub checked_extreme : (ℕ → List ℕ → ℕ) → List ℕ → Result ℕ
checked_extreme extreme [] = err value_error
checked_extreme extreme (x ∷ xs) = ok (extreme x xs)

unfoldable pub current_span_for_old_span : ℕ → ℕ → List Opcode → Result (ℕ × ℕ)
unfolding boundary_candidates smallest greatest checked_extreme
current_span_for_old_span old_start old_end opcodes =
    bind (checked_extreme smallest (boundary_candidates old_start opcodes)) λ current_start.
      bind (checked_extreme greatest (boundary_candidates old_end opcodes)) λ current_end.
        bind (guard (leb current_start current_end) value_error)
          λ _. ok (current_start, current_end)

-- `paragraph_by_id[paragraph_id]`, where the last paragraph with the identifier counts.
unfoldable pub paragraph_by_id : ℕ → List SavedParagraph → Option SavedParagraph
paragraph_by_id paragraph_id [] = none
paragraph_by_id paragraph_id (p ∷ ps) =
    let rest = paragraph_by_id paragraph_id ps in
    elim rest [
      | some q ↦ some q
      | none ↦ if nat_beq p.paragraph_id paragraph_id then some p else none
    ]

unfoldable pub required_paragraph : ℕ → List SavedParagraph → Result SavedParagraph
unfolding paragraph_by_id
required_paragraph paragraph_id ps = elim (paragraph_by_id paragraph_id ps) [
  | none ↦ err key_error
  | some p ↦ ok p
]

unfoldable pub last_id : ℕ → List ℕ → ℕ
last_id x [] = x
last_id x (y ∷ ys) = last_id y ys

-- The union of one group, which is never empty.
unfoldable pub union_of : List SavedParagraph → List Opcode → Text → List ℕ → Result ParagraphUnion
unfolding required_paragraph last_id current_span_for_old_span slice
union_of paragraphs opcodes t [] = err key_error
union_of paragraphs opcodes t (x ∷ group) = bind (required_paragraph x paragraphs) λ first.
    bind (required_paragraph (last_id x group) paragraphs) λ last.
      bind (current_span_for_old_span first.start last.end_offset opcodes)
        λ (current_start, current_end).
          ok
            (record { paragraph_ids = x ∷ group; current_text = slice current_start current_end t })

-- The union that begins with the paragraph.
unfoldable pub union_at : ℕ → List ParagraphUnion → Option ParagraphUnion
union_at paragraph_id [] = none
union_at paragraph_id (u ∷ us) =
    let rest = union_at paragraph_id us in
    elim u.paragraph_ids [ [] ↦ rest | x ∷ xs ↦ if nat_beq x paragraph_id then some u else rest ]

unfoldable pub reconstructed : List ParagraphUnion → List ℕ → List SavedParagraph → Text
unfolding union_at
reconstructed unions covered_ids [] = []
reconstructed unions covered_ids (p ∷ ps) =
    let rest = reconstructed unions covered_ids ps in
    elim (union_at p.paragraph_id unions) [
      | some u ↦ u.current_text ++ rest
      | none ↦ if contains p.paragraph_id covered_ids then rest else p.content ++ rest
    ]

unfoldable pub saved_text : List SavedParagraph → Text
saved_text [] = []
saved_text (p ∷ ps) = p.content ++ saved_text ps

-- `SequenceMatcher(None, saved_text, current_text, autojunk=False).get_opcodes()`
unfoldable pub align_unions :
    (Text → Text → List Opcode) → List SavedParagraph → Text → List ℕ → Result (List ParagraphUnion)
unfolding saved_text derived_modified_ids contiguous_groups union_of reconstructed
align_unions get_opcodes paragraphs t hinted_ids =
    let opcodes = get_opcodes (saved_text paragraphs) t in
    bind (derived_modified_ids paragraphs opcodes) λ derived.
      let marked_ids = derived ++ hinted_ids in
      bind (guard (not (is_empty marked_ids)) value_error) λ _.
        bind (traverse (union_of paragraphs opcodes t) (contiguous_groups marked_ids)) λ unions.
          bind
            (guard (reconstructed unions (flatten (contiguous_groups marked_ids)) paragraphs == t)
              value_error)
            λ _. ok unions
