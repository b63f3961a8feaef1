-- ===== src/Wizard/Vectors.antt =====
-- backend/wizard/save.py: what the processors, the embedders and the identifier factory return is
-- checked before a save uses it. What they return is a parameter.
pub mod Sized
use multi_tenant_rag_applica.Prelude.{
  ℕ, Bool, true, false, ◌&&◌, not, Option, none, some, List, [], ◌∷◌, ◌++◌, all, nat_beq, length,
  contains, ◌==◌, nat_eq, list_eq, if◌then◌else◌,
}
use multi_tenant_rag_applica.Python.Text.{Text, is_empty}
use multi_tenant_rag_applica.Python.Object.{Object, bool, str, list, tuple, elements}
use multi_tenant_rag_applica.Python.Exec.{
  Result, is_argument_error, ok, err, type_error, value_error, bind, guard, traverse,
}
use multi_tenant_rag_applica.Python.Uuid.{uuid}
use multi_tenant_rag_applica.Retrieval.Floats.{Floats}

unfoldable pub texts_of : List Object → Result (List Text)
texts_of [] = ok []
texts_of (str t ∷ rest) = bind (texts_of rest) λ ts. ok (t ∷ ts)
texts_of (x ∷ rest) = err type_error

unfoldable pub joined_texts : List Text → Text
joined_texts [] = []
joined_texts (t ∷ ts) = t ++ joined_texts ts

-- `_validated_processor_output`
unfoldable pub validated_processor_output : Object → Text → Result (List Text)
unfolding texts_of joined_texts
validated_processor_output (list xs) source_text =
    bind (texts_of (elements xs))
      λ ts. bind (guard (joined_texts ts == source_text) value_error) λ _. ok ts
validated_processor_output _ source_text = err type_error

-- `_new_chunk_uuid` of the value of the factory, with the set of unavailable identifiers after it.
-- `as_text` is `str`.
unfoldable pub new_chunk_uuid : (Object → Text) → Object → List Text → Result (Text × List Text)
new_chunk_uuid as_text value unavailable_ids = elim (uuid (as_text value)) [
  | none ↦ err value_error
  | some chunk_id ↦
      bind (guard (not (contains chunk_id unavailable_ids)) value_error)
        λ _. ok (chunk_id, chunk_id ∷ unavailable_ids)
]

-- `isinstance(value, Sequence)`, for what is neither `str` nor `bytes`.
unfoldable pub sequence_of : Object → Result (List Object)
sequence_of (list xs) = ok (elements xs)
sequence_of (tuple xs) = ok (elements xs)
sequence_of _ = err type_error

-- `len({len(row) for row in rows}) == 1`
unfoldable pub have_one_length {ℓ} : {A : Type ℓ} → List (List A) → Bool
have_one_length [] = false
have_one_length (row ∷ rows) = all (λ r. nat_beq (length r) (length row)) rows

module _ (f : Floats) where
  unfoldable pub validated_number : Object → Result f.Float
  validated_number (bool b) = err type_error
  validated_number value = elim (f.to_float value) [
    | err e ↦ err (if is_argument_error e then type_error else e)
    | ok x ↦ bind (guard (f.is_finite x) value_error) λ _. ok x
  ]

  -- `_validated_vector`
  unfoldable pub validated_vector : Object → Result (List f.Float)
  unfolding sequence_of validated_number
  validated_vector value = bind (sequence_of value) λ items.
      bind (traverse validated_number items)
        λ vector. bind (guard (not (is_empty vector)) value_error) λ _. ok vector

  unfoldable pub first_length : List (List f.Float) → ℕ
  first_length [] = 0
  first_length (row ∷ rows) = length row

  -- `_validated_multi_vector`, with `LATEON_EMBEDDING_DIMENSION`
  unfoldable pub validated_multi_vector : ℕ → Object → Result (List (List f.Float))
  unfolding sequence_of validated_vector have_one_length first_length
  validated_multi_vector dimension value = bind (sequence_of value) λ items.
      bind (traverse validated_vector items) λ rows.
        bind (guard (not (is_empty rows)) value_error) λ _.
          bind (guard (have_one_length rows) value_error)
            λ _. bind (guard (nat_beq (first_length rows) dimension) value_error) λ _. ok rows

  unfoldable pub all_rows : List (List (List f.Float)) → List (List f.Float)
  all_rows [] = []
  all_rows (rows ∷ matrices) = rows ++ all_rows matrices

  -- The matrices of the first provider.
  unfoldable pub checked_matrices : ℕ → List Text → Object → Result (List (List (List f.Float)))
  unfolding sequence_of validated_multi_vector all_rows have_one_length
  checked_matrices dimension texts value = bind (sequence_of value) λ items.
      bind (guard (nat_beq (length items) (length texts)) value_error) λ _.
        bind (traverse (validated_multi_vector dimension) items) λ matrices.
          bind (guard (have_one_length (all_rows matrices)) value_error) λ _. ok matrices

  -- The vectors of the embedder.
  unfoldable pub checked_vectors : List Text → Object → Result (List (List f.Float))
  unfolding sequence_of validated_vector have_one_length
  checked_vectors texts value = bind (sequence_of value) λ items.
      bind (guard (nat_beq (length items) (length texts)) value_error) λ _.
        bind (traverse validated_vector items)
          λ vectors. bind (guard (have_one_length vectors) value_error) λ _. ok vectors

  -- `_batch_vectors`: the second provider is called only when the first one's answer is accepted.
  unfoldable pub batch_vectors :
      (List Text → Result Object)
      → (List Text → Result Object)
      → ℕ
      → List Text
      → Result (List (List (List f.Float)) × List (List f.Float))
  unfolding checked_matrices checked_vectors
  batch_vectors encode_documents embed_many dimension [] = ok ([], [])
  batch_vectors encode_documents embed_many dimension (t ∷ texts) =
      bind (encode_documents (t ∷ texts)) λ raw_multi_vectors.
        bind (checked_matrices dimension (t ∷ texts) raw_multi_vectors) λ multi_vectors.
          bind (embed_many (t ∷ texts)) λ raw_diversity_vectors.
            bind (checked_vectors (t ∷ texts) raw_diversity_vectors)
              λ diversity_vectors. ok (multi_vectors, diversity_vectors)
