-- ===== src/Tests/Embedding.antt =====
-- The vectors of backend/wizard/save.py for one text, in two dimensions.
use multi_tenant_rag_applica.Prelude.{
  ℕ, ◌≡◌, refl, true, false, List, [], ◌∷◌, All, length, nat_eq, list_eq,
}
use multi_tenant_rag_applica.Python.Text.{Text, text, is_empty}
use multi_tenant_rag_applica.Python.Object.{Object, int, pos, list, cons, nil, str, texts}
use multi_tenant_rag_applica.Python.Exec.{Result, ok, err, value_error, traverse}
use multi_tenant_rag_applica.Wizard.Vectors.{
  have_one_length, batch_vectors, validated_processor_output, new_chunk_uuid,
}
use multi_tenant_rag_applica.Wizard.Vectors.Sized.{IsMatrix, batch_vectors-IsMatrix}
use multi_tenant_rag_applica.Tests.Given.{id_1}
use multi_tenant_rag_applica.Tests.Ranking.{numbers}

abbrev row : Object
row = list (cons (int (pos 3)) (cons (int (pos 4)) nil))

abbrev encode_documents : List Text → Result Object
encode_documents ts = ok (list (cons (list (cons row nil)) nil))

abbrev embed_many : List Text → Result Object
embed_many ts = ok (list (cons row nil))

abbrev matrices : List (List (List ℕ))
matrices = ((3 ∷ 4 ∷ []) ∷ []) ∷ []

abbrev vectors : List (List ℕ)
vectors = (3 ∷ 4 ∷ []) ∷ []

embedded :
    batch_vectors numbers encode_documents embed_many 2 (text "a" ∷ []) ≡ ok (matrices, vectors)
unfolding batch_vectors multi_tenant_rag_applica.Python.Object.elements traverse
embedded = refl

-- A provider with other dimensions is refused.
refused : batch_vectors numbers encode_documents embed_many 3 (text "a" ∷ []) ≡ err value_error
unfolding batch_vectors multi_tenant_rag_applica.Python.Object.elements traverse
refused = refl

changed :
    validated_processor_output (list (texts (text "a" ∷ text "b" ∷ []))) (text "abc")
    ≡ err value_error
unfolding validated_processor_output multi_tenant_rag_applica.Python.Object.elements
changed = refl

taken : new_chunk_uuid (λ o. id_1) (str id_1) (id_1 ∷ []) ≡ err value_error
unfolding new_chunk_uuid multi_tenant_rag_applica.Python.Uuid.uuid
    multi_tenant_rag_applica.Python.Text.is_space multi_tenant_rag_applica.Prelude.contains
taken = refl

batch_vectors-IsMatrix_example :
    All (IsMatrix numbers 2) matrices
    × (length matrices ≡ 1)
    × (length vectors ≡ 1)
    × (is_empty vectors ≡ false → have_one_length vectors ≡ true)
batch_vectors-IsMatrix_example =
    batch_vectors-IsMatrix numbers encode_documents embed_many 2 (text "a" ∷ []) matrices vectors
      embedded
