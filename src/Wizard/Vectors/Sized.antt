-- ===== src/Wizard/Vectors/Sized.antt =====
-- The vectors that `_batch_vectors` of backend/wizard/save.py returns.
use multi_tenant_rag_applica.Prelude.{
  ℕ, suc, ◌≡◌, refl, ap, ◌∙◌, Bool, true, false, not, List, [], ◌∷◌, arith, All, All-all, length,
  nat_beq, nat_eq,
}
use mathlib.Core.Path.{subst}
use multi_tenant_rag_applica.Python.Text.{Text, is_empty}
use multi_tenant_rag_applica.Python.Object.{Object}
use multi_tenant_rag_applica.Python.Exec.{
  Result, ok, value_error, guard, bind-eq-ok, ok_injective, traverse,
}
use multi_tenant_rag_applica.Retrieval.Floats.{Floats}
use multi_tenant_rag_applica.Wizard.Vectors.{
  sequence_of, have_one_length, validated_vector, first_length, validated_multi_vector, all_rows,
  checked_matrices, checked_vectors, batch_vectors,
}

traverse-All {ℓ} :
    {A B : Type ℓ} (P : B → Type 0) (g : A → Result B) (xs : List A) (ys : List B)
    → ((x : A) (y : B) → g x ≡ ok y → P y)
    → traverse g xs ≡ ok ys
    → All P ys × (length ys ≡ length xs)
unfolding traverse
traverse-All P g [] ys k h = rw (← ok_injective h) (tt, refl)
traverse-All P g (x ∷ xs) ys k h =
    let (y, p, h₁) = bind-eq-ok (g x) _ h in
    let (rest, q, h₂) = bind-eq-ok (traverse g xs) _ h₁ in
    let (a, l) = traverse-All P g xs rest k q in rw (← ok_injective h₂) ((k x y p, a), ap suc l)

module _ (f : Floats) where
  -- A matrix with rows of the dimension.
  pub record IsMatrix (dimension : ℕ) (rows : List (List f.Float)) : Type 0 where
    pub inhabited : is_empty rows ≡ false
    pub sized : All (λ row. length row ≡ dimension) rows

  guarded : (b : Bool) (u : Unit {0}) → guard b value_error ≡ ok u → b ≡ true
  guarded b u h = ground arith

  rows-sized :
      (dimension : ℕ) (rows : List (List f.Float))
      → have_one_length rows ≡ true
      → nat_beq (first_length f rows) dimension ≡ true
      → All (λ row. length row ≡ dimension) rows
  unfolding have_one_length first_length
  rows-sized dimension [] h k = tt
  rows-sized dimension (row ∷ rows) h k =
      let same : length row ≡ dimension =
        ground (arith, k, nat_eq.beq_iff (length row) dimension) in
      (
        same,
        All-all (λ (r : List f.Float). length r ≡ dimension) (λ r. nat_beq (length r) (length row))
            rows (λ r e. ground (arith, e, same, nat_eq.beq_iff (length r) (length row))) h,
      )

  validated_multi_vector-IsMatrix :
      (dimension : ℕ) (value : Object) (rows : List (List f.Float))
      → validated_multi_vector f dimension value ≡ ok rows
      → IsMatrix dimension rows
  unfolding validated_multi_vector
  validated_multi_vector-IsMatrix dimension value rows h =
      let (items, a, h₁) = bind-eq-ok (sequence_of value) _ h in
      let (found, b, h₂) = bind-eq-ok (traverse (validated_vector f) items) _ h₁ in
      let (u, c, h₃) = bind-eq-ok (guard (not (is_empty found)) value_error) _ h₂ in
      let (v, d, h₄) = bind-eq-ok (guard (have_one_length found) value_error) _ h₃ in
      let (w, e, h₅) =
        bind-eq-ok (guard (nat_beq (first_length f found) dimension) value_error) _ h₄ in
      subst (IsMatrix dimension) (ok_injective h₅) (record {
        inhabited = ground (arith, guarded (not (is_empty found)) u c);
        sized =
            rows-sized dimension found (guarded (have_one_length found) v d)
              (guarded (nat_beq (first_length f found) dimension) w e);
      })

  checked_matrices-IsMatrix :
      (dimension : ℕ) (texts : List Text) (value : Object) (matrices : List (List (List f.Float)))
      → checked_matrices f dimension texts value ≡ ok matrices
      → All (IsMatrix dimension) matrices × (length matrices ≡ length texts)
  unfolding checked_matrices
  checked_matrices-IsMatrix dimension texts value matrices h =
      let (items, a, h₁) = bind-eq-ok (sequence_of value) _ h in
      let (u, b, h₂) =
        bind-eq-ok (guard (nat_beq (length items) (length texts)) value_error) _ h₁ in
      let (found, c, h₃) = bind-eq-ok (traverse (validated_multi_vector f dimension) items) _ h₂ in
      let (v, d, h₄) = bind-eq-ok (guard (have_one_length (all_rows f found)) value_error) _ h₃ in
      let (m, l) =
        traverse-All (IsMatrix dimension) (validated_multi_vector f dimension) items found
          (validated_multi_vector-IsMatrix dimension) c in
      let counted : length items ≡ length texts =
        (nat_eq.beq_iff (length items) (length texts)).0
          (guarded (nat_beq (length items) (length texts)) u b) in
      rw (← ok_injective h₄) (m, l ∙ counted)

  checked_vectors-sized :
      (texts : List Text) (value : Object) (vectors : List (List f.Float))
      → checked_vectors f texts value ≡ ok vectors
      → (length vectors ≡ length texts) × (have_one_length vectors ≡ true)
  unfolding checked_vectors
  checked_vectors-sized texts value vectors h =
      let (items, a, h₁) = bind-eq-ok (sequence_of value) _ h in
      let (u, b, h₂) =
        bind-eq-ok (guard (nat_beq (length items) (length texts)) value_error) _ h₁ in
      let (found, c, h₃) = bind-eq-ok (traverse (validated_vector f) items) _ h₂ in
      let (v, d, h₄) = bind-eq-ok (guard (have_one_length found) value_error) _ h₃ in
      let (m, l) = traverse-All (λ x. Unit {0}) (validated_vector f) items found (λ x y e. tt) c in
      let counted : length items ≡ length texts =
        (nat_eq.beq_iff (length items) (length texts)).0
          (guarded (nat_beq (length items) (length texts)) u b) in
      rw (← ok_injective h₄) (l ∙ counted, guarded (have_one_length found) v d)

-- What a batch returns is one matrix and one vector for each text. The rows of every matrix have
-- the dimension, no matrix is empty, and the vectors, if there are any, have one length.
pub batch_vectors-IsMatrix :
    (f : Floats) (encode_documents embed_many : List Text → Result Object) (dimension : ℕ)
    (texts : List Text) (multi_vectors : List (List (List f.Float)))
    (diversity_vectors : List (List f.Float))
    → batch_vectors f encode_documents embed_many dimension texts
      ≡ ok (multi_vectors, diversity_vectors)
    → All (IsMatrix f dimension) multi_vectors
      × (length multi_vectors ≡ length texts)
      × (length diversity_vectors ≡ length texts)
      × (is_empty diversity_vectors ≡ false → have_one_length diversity_vectors ≡ true)
unfolding batch_vectors
batch_vectors-IsMatrix f encode_documents embed_many dimension [] ms vs h =
    subst
      (λ (p : List (List (List f.Float)) × List (List f.Float)).
        All (IsMatrix f dimension) p.0
        × (length p.0 ≡ 0)
        × (length p.1 ≡ 0)
        × (is_empty p.1 ≡ false → have_one_length p.1 ≡ true))
      (ok_injective h) (tt, refl, refl, λ e. absurd (ground arith))
batch_vectors-IsMatrix f encode_documents embed_many dimension (t ∷ texts) ms vs h =
    let (raw, a, h₁) = bind-eq-ok (encode_documents (t ∷ texts)) _ h in
    let (ms', b, h₂) = bind-eq-ok (checked_matrices f dimension (t ∷ texts) raw) _ h₁ in
    let (raw', c, h₃) = bind-eq-ok (embed_many (t ∷ texts)) _ h₂ in
    let (vs', d, h₄) = bind-eq-ok (checked_vectors f (t ∷ texts) raw') _ h₃ in
    let (m, l) = checked_matrices-IsMatrix f dimension (t ∷ texts) raw ms' b in
    let (k, o) = checked_vectors-sized f (t ∷ texts) raw' vs' d in
    subst
      (λ (p : List (List (List f.Float)) × List (List f.Float)).
        All (IsMatrix f dimension) p.0
        × (length p.0 ≡ suc (length texts))
        × (length p.1 ≡ suc (length texts))
        × (is_empty p.1 ≡ false → have_one_length p.1 ≡ true))
      (ok_injective h₄) (m, l, k, λ e. o)
