-- ===== src/Wizard/Unions/Groups.antt =====
-- `_contiguous_groups` of backend/wizard/save.py.
use multi_tenant_rag_applica.Prelude.{
  ℕ, suc, ◌<◌, ◌≡◌, refl, sym, ◌∙◌, ap, ◌||◌, List, [], ◌∷◌, ◌++◌, arith, All, ltb, nat_beq, nat_eq,
  contains, Bool-cases, inl, inr,
}
use mathlib.Core.Path.{subst}
use mathlib.Core.List.{flatten, append_assoc}
use multi_tenant_rag_applica.Wizard.Unions.{
  insert_id, sorted_ids, groups_from, last_id, contiguous_groups,
}

contains-insert_id :
    (k x : ℕ) (xs : List ℕ) → contains k (insert_id x xs) ≡ (nat_beq x k || contains k xs)
unfolding insert_id contains
contains-insert_id k x [] = refl
contains-insert_id k x (y ∷ ys) = ground (arith, contains-insert_id k x ys, nat_eq.beq_iff x y)

pub contains-sorted_ids : (k : ℕ) (xs : List ℕ) → contains k (sorted_ids xs) ≡ contains k xs
unfolding sorted_ids contains
contains-sorted_ids k [] = refl
contains-sorted_ids k (x ∷ xs) =
    ground (arith, contains-insert_id k x (sorted_ids xs), contains-sorted_ids k xs)

-- Each is less than all that follow it.
abbrev pub IsAscending : List ℕ → Type 0
IsAscending [] = Unit
IsAscending (x ∷ xs) = All (λ y. x < y) xs × IsAscending xs

All-insert_id : (P : ℕ → Type 0) (x : ℕ) (xs : List ℕ) → P x → All P xs → All P (insert_id x xs)
unfolding insert_id
All-insert_id P x [] p h = (p, tt)
All-insert_id P x (y ∷ ys) p h = elim (Bool-cases (ltb x y)) [
  | inl e ↦ rw e (p, h)
  | inr e ↦ elim (Bool-cases (nat_beq x y)) [
    | inl g ↦ rw (e, g) h
    | inr g ↦ rw (e, g) (h.0, All-insert_id P x ys p h.1)
  ]
]

All-less : (x y : ℕ) (ys : List ℕ) → x < y → All (λ z. y < z) ys → All (λ z. x < z) ys
All-less x y [] l h = tt
All-less x y (z ∷ ys) l h = (omega (arith, l, h.0), All-less x y ys l h.1)

insert_id-IsAscending : (x : ℕ) (xs : List ℕ) → IsAscending xs → IsAscending (insert_id x xs)
unfolding insert_id
insert_id-IsAscending x [] h = (tt, tt)
insert_id-IsAscending x (y ∷ ys) h = elim (Bool-cases (ltb x y)) [
  | inl e ↦ let l : x < y = ground (arith, e) in rw e ((l, All-less x y ys l h.0), h)
  | inr e ↦ elim (Bool-cases (nat_beq x y)) [
    | inl g ↦ rw (e, g) h
    | inr g ↦
        let l : y < x = ground (arith, e, g, nat_eq.beq_iff x y) in
        rw (e, g) (All-insert_id (λ z. y < z) x ys l h.0, insert_id-IsAscending x ys h.1)
  ]
]

sorted_ids-IsAscending : (xs : List ℕ) → IsAscending (sorted_ids xs)
unfolding sorted_ids
sorted_ids-IsAscending [] = tt
sorted_ids-IsAscending (x ∷ xs) =
    insert_id-IsAscending x (sorted_ids xs) (sorted_ids-IsAscending xs)

-- Neighbours, each one more than the one before.
abbrev pub IsRun : List ℕ → Type 0
IsRun [] = Unit
IsRun (x ∷ []) = Unit
IsRun (x ∷ y ∷ ys) = (y ≡ suc x) × IsRun (y ∷ ys)

-- Runs that are not empty, with an identifier missing between one and the next.
pub AreGroups : List (List ℕ) → Type 0
AreGroups [] = Unit
AreGroups ([] ∷ groups) = ⊥
AreGroups ((x ∷ xs) ∷ []) = IsRun (x ∷ xs)
AreGroups ((x ∷ xs) ∷ [] ∷ groups) = ⊥
AreGroups ((x ∷ xs) ∷ (y ∷ ys) ∷ groups) =
    IsRun (x ∷ xs) × (suc (last_id x xs) < y) × AreGroups ((y ∷ ys) ∷ groups)

IsRun-append :
    (x : ℕ) (xs : List ℕ) (y : ℕ)
    → IsRun (x ∷ xs)
    → y ≡ suc (last_id x xs)
    → IsRun (x ∷ (xs ++ y ∷ []))
unfolding last_id
IsRun-append x [] y r e = (e, tt)
IsRun-append x (z ∷ xs) y r e = (r.0, IsRun-append z xs y r.1 e)

last_id-append : (x : ℕ) (xs : List ℕ) (y : ℕ) → last_id x (xs ++ y ∷ []) ≡ y
unfolding last_id
last_id-append x [] y = refl
last_id-append x (z ∷ xs) y = last_id-append z xs y

-- The first group begins as the given one does.
groups_from-begins :
    (x : ℕ) (xs : List ℕ) (last : ℕ) (rest : List ℕ)
    → (g : List ℕ) × (groups : List (List ℕ)) × (groups_from (x ∷ xs) last rest ≡ (x ∷ g) ∷ groups)
unfolding groups_from
groups_from-begins x xs last [] = (xs, [], refl)
groups_from-begins x xs last (y ∷ rest) = elim (Bool-cases (nat_beq y (suc last))) [
  | inl e ↦ let (g, groups, h) = groups_from-begins x (xs ++ y ∷ []) y rest in (g, groups, rw e h)
  | inr e ↦ (xs, groups_from (y ∷ []) y rest, rw e)
]

cons-AreGroups :
    (x : ℕ) (xs : List ℕ) (y : ℕ) (g : List ℕ) (groups after : List (List ℕ))
    → after ≡ (y ∷ g) ∷ groups
    → IsRun (x ∷ xs)
    → suc (last_id x xs) < y
    → AreGroups after
    → AreGroups ((x ∷ xs) ∷ after)
unfolding AreGroups
cons-AreGroups x xs y g groups after e r l a =
    subst (λ b. AreGroups ((x ∷ xs) ∷ b)) (sym e) (r, l, subst AreGroups e a)

groups_from-AreGroups :
    (x : ℕ) (xs : List ℕ) (last : ℕ) (rest : List ℕ)
    → last ≡ last_id x xs
    → IsRun (x ∷ xs)
    → IsAscending (last ∷ rest)
    → AreGroups (groups_from (x ∷ xs) last rest)
      × (flatten (groups_from (x ∷ xs) last rest) ≡ x ∷ (xs ++ rest))
unfolding groups_from flatten AreGroups last_id
groups_from-AreGroups x xs last [] e r a = (r, refl)
groups_from-AreGroups x xs last (y ∷ rest) e r a = elim (Bool-cases (nat_beq y (suc last))) [
  | inl b ↦
      let next : y ≡ suc (last_id x xs) = ground (arith, b, e, nat_eq.beq_iff y (suc last)) in
      let (h, k) =
        groups_from-AreGroups x (xs ++ y ∷ []) y rest (sym (last_id-append x xs y))
          (IsRun-append x xs y r next) a.1 in
      rw b (h, k ∙ ap (◌∷◌ x) (append_assoc xs (y ∷ []) rest))
  | inr b ↦
      let (h, k) = groups_from-AreGroups y [] y rest refl tt a.1 in
      let (g, groups, f) = groups_from-begins y [] y rest in
      let apart : suc (last_id x xs) < y =
        ground (arith, b, e, a.0.0, nat_eq.beq_iff y (suc last)) in
      rw b (cons-AreGroups x xs y g groups (groups_from (y ∷ []) y rest) f r apart h, rw k)
]

grouped_lem :
    (sorted : List ℕ)
    → IsAscending sorted
    → AreGroups (elim sorted [ [] ↦ [] | x ∷ xs ↦ groups_from (x ∷ []) x xs ])
      × (flatten (elim sorted [ [] ↦ [] | x ∷ xs ↦ groups_from (x ∷ []) x xs ]) ≡ sorted)
unfolding flatten AreGroups last_id
grouped_lem [] a = (tt, refl)
grouped_lem (x ∷ xs) a = groups_from-AreGroups x [] x xs refl tt a

-- The groups, joined, are the identifiers in ascending order, each once. No group is empty, the
-- members of a group are neighbours, and between two groups an identifier is missing.
pub contiguous_groups-AreGroups :
    (ids : List ℕ)
    → AreGroups (contiguous_groups ids)
      × IsAscending (flatten (contiguous_groups ids))
      × ((k : ℕ) → contains k (flatten (contiguous_groups ids)) ≡ contains k ids)
unfolding contiguous_groups
contiguous_groups-AreGroups ids =
    let (g, f) = grouped_lem (sorted_ids ids) (sorted_ids-IsAscending ids) in
    (
      g,
      subst IsAscending (sym f) (sorted_ids-IsAscending ids),
      λ k. ap (contains k) f ∙ contains-sorted_ids k ids,
    )
