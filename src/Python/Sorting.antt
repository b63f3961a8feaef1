-- ===== src/Python/Sorting.antt =====
-- `sorted`: a stable sort by a test `le`. `sorted(d.items())` of a dictionary with number keys
-- compares keys only, since no two keys are equal.
pub mod Ascending
pub mod Keyed
use multi_tenant_rag_applica.Prelude.{
  ℕ, zero, suc, Bool, List, [], ◌∷◌, leb, ltb, nat_beq, ◌&&◌, ◌||◌, true, false, if◌then◌else◌,
}
use multi_tenant_rag_applica.Python.Text.{Text}
use multi_tenant_rag_applica.Python.Dict.{Dict}

module _ {ℓ} {A : Type ℓ} (le : A → A → Bool) where
  unfoldable pub insert_by : A → List A → List A
  insert_by x [] = x ∷ []
  insert_by x (y ∷ ys) = if le x y then x ∷ (y ∷ ys) else y ∷ insert_by x ys

  unfoldable pub sort_by : List A → List A
  sort_by [] = []
  sort_by (x ∷ xs) = insert_by x (sort_by xs)

abbrev pub key_le {ℓ} : {V : Type ℓ} → ℕ × V → ℕ × V → Bool
key_le p q = leb p.0 q.0

-- `sorted(d.items())`
abbrev pub sorted_items {ℓ} : {V : Type ℓ} → Dict ℕ V → Dict ℕ V
sorted_items = sort_by key_le

-- The lexicographic order of texts by code points.
unfoldable pub text_le : Text → Text → Bool
text_le [] t = true
text_le (c ∷ cs) [] = false
text_le (c ∷ cs) (d ∷ ds) = ltb c d || nat_beq c d && text_le cs ds

-- `range(start, start + count)`
abbrev pub count_up : ℕ → ℕ → List ℕ
count_up start zero = []
count_up start (suc count) = start ∷ count_up (suc start) count
