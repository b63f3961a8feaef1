-- ===== src/Wizard/Unions/Marked.antt =====
-- `_derived_modified_ids` of backend/wizard/save.py: what is not marked is not touched.
use multi_tenant_rag_applica.Prelude.{
  ℕ, zero, suc, ◌+◌, ◌≤◌, ◌≡◌, refl, sym, Bool, false, ◌&&◌, ◌||◌, ◌⊎◌, some, List, [], ◌∷◌, ◌++◌,
  arith, All, leb, ltb, nat_beq, nat_eq, contains, get_elem?, length, Bool-cases, inl, inr,
}
use mathlib.Core.Path.{subst}
use multi_tenant_rag_applica.Python.Exec.{ok, bind-eq-ok, ok_injective}
use multi_tenant_rag_applica.Mappings.DocumentMap.{Paragraphs}
use multi_tenant_rag_applica.Wizard.Alignment.{SavedParagraph, saved_from, saved_paragraphs}
use multi_tenant_rag_applica.Wizard.Unions.{
  Opcode, ids_where, paragraphs_overlapping, last_of, first_nonempty, paragraphs_at_insertion,
  touched_ids, derived_modified_ids,
}

-- The paragraph lies before the changed part of the saved text, or behind it.
abbrev pub IsApart : SavedParagraph → Opcode → Type 0
IsApart p o = (p.end_offset ≤ o.old_start) ⊎ (o.old_end ≤ p.start)

contains-append :
    (k : ℕ) (xs ys : List ℕ) → contains k (xs ++ ys) ≡ (contains k xs || contains k ys)
unfolding contains
contains-append k [] ys = refl
contains-append k (x ∷ xs) ys = ground (arith, contains-append k xs ys)

module _ (p : SavedParagraph) where
  ids_where-false :
      (test : SavedParagraph → Bool) (ps : List SavedParagraph) (j : ℕ)
      → get_elem? ps j ≡ some p
      → contains p.paragraph_id (ids_where test ps) ≡ false
      → test p ≡ false
  unfolding ids_where contains
  ids_where-false test [] j h k = absurd (ground arith)
  ids_where-false test (q ∷ ps) zero h k =
      let same : q ≡ p = ground (arith, h) in
      elim (Bool-cases (test q)) [
        | inl e ↦ absurd (ground (arith, e, same, nat_eq.beq_iff q.paragraph_id p.paragraph_id))
        | inr e ↦ subst (λ r. test r ≡ false) same e
      ]
  ids_where-false test (q ∷ ps) (suc j) h k = elim (Bool-cases (test q)) [
    | inl e ↦ ids_where-false test ps j h (ground (arith, e))
    | inr e ↦ ids_where-false test ps j h (ground (arith, e))
  ]

  first_nonempty-false :
      (xs ys : List ℕ)
      → contains p.paragraph_id (first_nonempty xs ys) ≡ false
      → contains p.paragraph_id xs ≡ false
  unfolding first_nonempty contains
  first_nonempty-false [] ys h = refl
  first_nonempty-false (x ∷ xs) ys h = h

  module _ (first : SavedParagraph) (rest : List SavedParagraph) (j : ℕ)
      (here : get_elem? (first ∷ rest) j ≡ some p)
      (last_end : p.end_offset ≤ (last_of first rest).end_offset) where
    at_insertion-IsApart :
        (position : ℕ) (ids : List ℕ)
        → paragraphs_at_insertion (first ∷ rest) position ≡ ok ids
        → contains p.paragraph_id ids ≡ false
        → (p.end_offset ≤ position) ⊎ (position ≤ p.start)
    unfolding paragraphs_at_insertion
    at_insertion-IsApart position ids h k = elim (Bool-cases (leb position 0)) [
      | inl e ↦ inr (ground (arith, e))
      | inr e ↦ elim (Bool-cases (leb (last_of first rest).end_offset position)) [
        | inl g ↦ inl (ground (arith, g, last_end))
        | inr g ↦
            let containing =
              ids_where (λ q. ltb q.start position && ltb position q.end_offset) (first ∷ rest) in
            let adjacent =
              ids_where (λ q. nat_beq q.start position || nat_beq q.end_offset position)
                (first ∷ rest) in
            let other = first_nonempty adjacent ((last_of first rest).paragraph_id ∷ []) in
            let same : first_nonempty containing other ≡ ids = ground (arith, e, g, h) in
            let unmarked =
              first_nonempty-false containing other
                (subst (λ l. contains p.paragraph_id l ≡ false) (sym same) k) in
            let outside =
              ids_where-false (λ q. ltb q.start position && ltb position q.end_offset)
                (first ∷ rest) j here unmarked in
            ground (arith, outside)
      ]
    ]

    touched_ids-IsApart :
        (o : Opcode) (ids : List ℕ)
        → touched_ids (first ∷ rest) o ≡ ok ids
        → contains p.paragraph_id ids ≡ false
        → o.is_equal ≡ false
        → IsApart p o
    unfolding touched_ids paragraphs_overlapping
    touched_ids-IsApart o ids h k different = elim (Bool-cases (nat_beq o.old_start o.old_end)) [
      | inl e ↦
          let same : o.old_start ≡ o.old_end =
            ground (arith, e, nat_eq.beq_iff o.old_start o.old_end) in
          let apart = at_insertion-IsApart o.old_start ids (ground (arith, different, e, h)) k in
          ground (arith, apart, same)
      | inr e ↦
          let overlapping =
            ids_where (λ q. ltb q.start o.old_end && ltb o.old_start q.end_offset) (first ∷ rest) in
          let same : overlapping ≡ ids = ground (arith, different, e, h) in
          let outside =
            ids_where-false (λ q. ltb q.start o.old_end && ltb o.old_start q.end_offset)
              (first ∷ rest) j here (subst (λ l. contains p.paragraph_id l ≡ false) (sym same) k) in
          ground (arith, outside)
    ]

    derived-IsApart :
        (opcodes : List Opcode) (ids : List ℕ)
        → derived_modified_ids (first ∷ rest) opcodes ≡ ok ids
        → contains p.paragraph_id ids ≡ false
        → All (λ o. o.is_equal ≡ false → IsApart p o) opcodes
    unfolding derived_modified_ids
    derived-IsApart [] ids h k = tt
    derived-IsApart (o ∷ opcodes) ids h k =
        let (touched, a, h₁) = bind-eq-ok (touched_ids (first ∷ rest) o) _ h in
        let (modified, b, h₂) = bind-eq-ok (derived_modified_ids (first ∷ rest) opcodes) _ h₁ in
        let k' = subst (λ l. contains p.paragraph_id l ≡ false) (sym (ok_injective h₂)) k in
        let both = contains-append p.paragraph_id touched modified in
        (
          λ d. touched_ids-IsApart o touched a (ground (arith, both, k')) d,
          derived-IsApart opcodes modified b (ground (arith, both, k')),
        )

-- The first paragraph, and those that follow it, end no later than the last one.
first-last :
    (first : SavedParagraph) (d : Paragraphs)
    → first.end_offset ≤ (last_of first (saved_from first.end_offset d)).end_offset
unfolding saved_from last_of
first-last first [] = omega arith
first-last first ((k, t) ∷ d) =
    let stop = first.end_offset + length t in
    let next : SavedParagraph = record {
      paragraph_id = k;
      content = t;
      start = first.end_offset;
      end_offset = stop;
    } in
    omega (arith, first-last next d)

saved_from-last :
    (first : SavedParagraph) (d : Paragraphs) (j : ℕ) (p : SavedParagraph)
    → get_elem? (first ∷ saved_from first.end_offset d) j ≡ some p
    → p.end_offset ≤ (last_of first (saved_from first.end_offset d)).end_offset
unfolding saved_from last_of
saved_from-last first d zero p h =
    let same : first ≡ p = ground (arith, h) in
    subst
      (λ (q : SavedParagraph).
        q.end_offset ≤ (last_of first (saved_from first.end_offset d)).end_offset)
      same (first-last first d)
saved_from-last first [] (suc j) p h = absurd (ground arith)
saved_from-last first ((k, t) ∷ d) (suc j) p h =
    saved_from-last
      (record {
        paragraph_id = k;
        content = t;
        start = first.end_offset;
        end_offset = first.end_offset + length t;
      })
      d j p h

-- Of the paragraphs of a document, one that is not marked lies before or behind every part of the
-- saved text that an opcode changes, insertions included.
pub derived_modified_ids-IsApart :
    (d : Paragraphs) (opcodes : List Opcode) (ids : List ℕ) (j : ℕ) (p : SavedParagraph)
    → derived_modified_ids (saved_paragraphs d) opcodes ≡ ok ids
    → get_elem? (saved_paragraphs d) j ≡ some p
    → contains p.paragraph_id ids ≡ false
    → All (λ o. o.is_equal ≡ false → IsApart p o) opcodes
unfolding saved_paragraphs saved_from
derived_modified_ids-IsApart [] opcodes ids j p h g k = absurd (ground arith)
derived_modified_ids-IsApart ((i, t) ∷ d) opcodes ids j p h g k =
    let first : SavedParagraph = record {
      paragraph_id = i;
      content = t;
      start = 0;
      end_offset = 0 + length t;
    } in
    derived-IsApart p first (saved_from (0 + length t) d) j g (saved_from-last first d j p g)
      opcodes ids h k
