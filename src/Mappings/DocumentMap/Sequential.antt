-- ===== src/Mappings/DocumentMap/Sequential.antt =====
-- What `_validated_replacement` of backend/mappings/document_map.py lets through.
use mathlib.Core.Path.{subst}
use multi_tenant_rag_applica.Prelude.{
  ℕ, ◌+◌, ◌≤◌, ◌<◌, ◌≡◌, refl, true, false, List, [], ◌∷◌, All, All-all, length, length-map, arith,
  nat_eq, contains, Bool-cases, inl, inr,
}
use multi_tenant_rag_applica.Python.Text.{is_empty}
use multi_tenant_rag_applica.Python.Object.{Object, mapping, items}
use multi_tenant_rag_applica.Python.Exec.{ok, bind-eq-ok}
use multi_tenant_rag_applica.Python.Dict.{Dict, keys, insert}
use multi_tenant_rag_applica.Python.Dict.Keys.{Distinct, Distinct-insert}
use multi_tenant_rag_applica.Python.Sorting.{sorted_items, count_up}
use multi_tenant_rag_applica.Python.Sorting.Ascending.{
  Ascending, Ascending-eq-count_up, contains-count_up, sorted_items-Ascending, length-sorted_items,
  All-sorted_items,
}
use multi_tenant_rag_applica.Mappings.Common.{positive_paragraph_id}
use multi_tenant_rag_applica.Mappings.DocumentMap.{
  Paragraphs, paragraph_text, validated_items, covers_range, sequential, validated_replacement,
  blank,
}

-- The paragraph IDs are 1, 2, ..., N in this order, and there is at least one.
abbrev pub IsSequential {ℓ} : {V : Type ℓ} → Dict ℕ V → Type 0
IsSequential d = (keys d ≡ count_up 1 (length d)) × (0 < length d)

validated_items-Distinct :
    (es : List (Object × Object)) (v : Paragraphs) {d : Paragraphs}
    → Distinct (keys v)
    → validated_items es v ≡ ok d
    → Distinct (keys d)
unfolding validated_items
validated_items-Distinct [] v h e = ground arith
validated_items-Distinct ((k, t) ∷ es) v h e =
    let (p, _, e₁) = bind-eq-ok (positive_paragraph_id k) _ e in
    let (s, _, e₂) = bind-eq-ok (paragraph_text t) _ e₁ in
    validated_items-Distinct es (insert p s v) (Distinct-insert p s v h) e₂

in_range : (v : List ℕ) → covers_range v ≡ true → All (λ k. (1 ≤ k) × (k < 1 + length v)) v
unfolding covers_range
in_range v h =
    All-all _ (λ k. contains k (count_up 1 (length v))) v
      (λ k c. contains-count_up k 1 (length v) c) (ground arith)

All-fst : (n : ℕ) (xs : List ℕ) → All (λ k. (1 ≤ k) × (k < n)) xs → All (λ k. k < n) xs
All-fst n [] h = tt
All-fst n (x ∷ xs) h = (h.0.1, All-fst n xs h.1)

Ascending-from_one :
    (n : ℕ) (xs : List ℕ) → Ascending 0 xs → All (λ k. (1 ≤ k) × (k < n)) xs → Ascending 1 xs
Ascending-from_one n [] a h = tt
Ascending-from_one n (x ∷ xs) a h = (h.0.0, a.1)

-- Sorting distinct keys that cover a range gives the range.
pub sorted_items-IsSequential {ℓ} :
    {V : Type ℓ} (d : Dict ℕ V)
    → Distinct (keys d)
    → is_empty d ≡ false
    → covers_range (keys d) ≡ true
    → IsSequential (sorted_items d)
sorted_items-IsSequential [] h n c = cc
sorted_items-IsSequential (e ∷ d) h n c =
    let all_in = All-sorted_items _ (e ∷ d) (in_range (keys (e ∷ d)) c) in
    (
      Ascending-eq-count_up 1 (length (sorted_items (e ∷ d))) (1 + length (keys (e ∷ d)))
          (keys (sorted_items (e ∷ d))) (length-map (sorted_items (e ∷ d)) _)
          (omega (arith, length-sorted_items (e ∷ d), length-map (e ∷ d) (λ f. f.0)))
          (Ascending-from_one _ _ (sorted_items-Ascending (e ∷ d) h) all_in) (All-fst _ _ all_in),
      omega (arith, length-sorted_items (e ∷ d)),
    )

sequential-IsSequential :
    (v : Paragraphs) {d : Paragraphs} → Distinct (keys v) → sequential v ≡ ok d → IsSequential d
unfolding sequential
sequential-IsSequential [] {d} h e =
    let here : blank ≡ d = cc in subst IsSequential here (refl, omega arith)
sequential-IsSequential (f ∷ v) {d} h e = elim (Bool-cases (covers_range (keys (f ∷ v)))) [
  | inl c ↦
      let here : sorted_items (f ∷ v) ≡ d = ground arith in
      subst IsSequential here (sorted_items-IsSequential (f ∷ v) h refl c)
  | inr c ↦ ground arith
]

-- A replacement that `DocumentMap` accepts is stored with the paragraph IDs 1 to N in order, with N
-- positive, in whatever order the caller gives them.
pub validated_replacement-IsSequential :
    (data' : Object) {d : Paragraphs} → validated_replacement data' ≡ ok d → IsSequential d
unfolding validated_replacement
validated_replacement-IsSequential (mapping es) e =
    let (v, e₁, e₂) = bind-eq-ok (validated_items (items es) []) sequential e in
    sequential-IsSequential v (validated_items-Distinct (items es) [] tt e₁) e₂
validated_replacement-IsSequential _ e = cc
