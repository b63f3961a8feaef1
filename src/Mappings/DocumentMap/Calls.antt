-- ===== src/Mappings/DocumentMap/Calls.antt =====
-- Any sequence of calls of a `DocumentMap` (backend/mappings/document_map.py).
use multi_tenant_rag_applica.Prelude.{◌≡◌, refl, List, [], ◌∷◌, some, arith, list_eq, nat_eq}
use multi_tenant_rag_applica.Python.Text.{Text}
use multi_tenant_rag_applica.Python.Object.{Object}
use multi_tenant_rag_applica.Python.Exec.{ok, err, Error, Exec, modify, ◌>>=◌}
use multi_tenant_rag_applica.Python.Exec.Keeps.{Keeps, Keeps-bind-lift, keeps_rules}
use multi_tenant_rag_applica.Python.Dict.{lookup, lookup-delete, lookup-insert}
use multi_tenant_rag_applica.Mappings.DocumentMap.{
  DocumentMap, Paragraphs, blank, store, discard, create_document, update_paragraphs,
  validate_update, restore_document, delete_document, init,
}
use multi_tenant_rag_applica.Mappings.DocumentMap.Sequential.{
  IsSequential, validated_replacement-IsSequential,
}

pub data Call : Type 0 where
  create delete : Object → Call
  update validate restore : Object → Object → Call

unfoldable pub perform : Call → Exec DocumentMap (Unit {0})
perform (create document_id) = create_document document_id
perform (delete document_id) = delete_document document_id
perform (update document_id d) = update_paragraphs document_id d
perform (validate document_id d) = validate_update document_id d
perform (restore document_id d) = restore_document document_id d

-- An exception ends its own call only.
unfoldable pub run : DocumentMap → List Call → DocumentMap
run m [] = m
run m (c ∷ cs) = run (perform c m).1 cs

-- Every document has the paragraphs 1 to N, in order.
pub record IsValid (m : DocumentMap) : Type 0 where
  pub at : (k : Text) (d : Paragraphs) → lookup k m.documents ≡ some d → IsSequential d

store-IsValid : (key : Text) (d : Paragraphs) → IsSequential d → Keeps IsValid (store key d)
unfolding store modify
store-IsValid key d seq = record {
  at = λ m v. record { at = λ k p e. ground (arith, lookup-insert key k d m.documents, v.at k p) };
}

discard-IsValid : (key : Text) → Keeps IsValid (discard key)
unfolding discard modify
discard-IsValid key = record {
  at = λ m v. record { at = λ k p e. ground (arith, lookup-delete key k m.documents, v.at k p) };
}

blank-IsSequential : IsSequential blank
blank-IsSequential = (refl, omega arith)

perform-IsValid : (c : Call) → Keeps IsValid (perform c)
unfolding perform create_document delete_document update_paragraphs validate_update restore_document
perform-IsValid (create document_id) = search (keeps_rules, store-IsValid, blank-IsSequential)
perform-IsValid (delete document_id) = search (keeps_rules, discard-IsValid)
perform-IsValid (update document_id d) =
    search (keeps_rules, Keeps-bind-lift, store-IsValid, validated_replacement-IsSequential) depth
      12
perform-IsValid (validate document_id d) = search keeps_rules
perform-IsValid (restore document_id d) =
    search (keeps_rules, Keeps-bind-lift, store-IsValid, validated_replacement-IsSequential) depth
      12

run-IsValid : (m : DocumentMap) (cs : List Call) → IsValid m → IsValid (run m cs)
unfolding run
run-IsValid m [] v = v
run-IsValid m (c ∷ cs) v = run-IsValid (perform c m).1 cs ((perform-IsValid c).at m v)

init-IsValid :
    (user_id collection_type : Object) {m : DocumentMap}
    → init user_id collection_type ≡ ok m
    → IsValid m
unfolding init lookup
init-IsValid user_id collection_type e = record { at = λ k d f. ground arith }

-- Whatever calls follow the construction of a map, every document has the paragraph IDs 1 to N in
-- order, with N positive.
pub run_documents-IsValid :
    (user_id collection_type : Object) (cs : List Call) (m : DocumentMap)
    → init user_id collection_type ≡ ok m
    → IsValid (run m cs)
run_documents-IsValid user_id collection_type cs m e =
    run-IsValid m cs (init-IsValid user_id collection_type e)

-- A call that raises leaves the map as it was.
pub perform_error_unchanged :
    (c : Call) (m : DocumentMap) (x : Error) → (perform c m).0 ≡ err x → (perform c m).1 ≡ m
unfolding perform create_document delete_document update_paragraphs validate_update restore_document
    store discard ◌>>=◌
perform_error_unchanged (create document_id) m x e = ground arith
perform_error_unchanged (delete document_id) m x e = ground arith
perform_error_unchanged (update document_id d) m x e = ground arith
perform_error_unchanged (validate document_id d) m x e = ground arith
perform_error_unchanged (restore document_id d) m x e = ground arith

-- `validate_update` raises exactly what `update_paragraphs` would raise, and changes nothing.
pub validate_update-exact :
    (document_id d : Object) (m : DocumentMap)
    → ((validate_update document_id d m).0 ≡ (update_paragraphs document_id d m).0)
      × ((validate_update document_id d m).1 ≡ m)
unfolding validate_update update_paragraphs store ◌>>=◌
validate_update-exact document_id d m = ground arith
