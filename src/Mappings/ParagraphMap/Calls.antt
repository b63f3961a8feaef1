-- ===== src/Mappings/ParagraphMap/Calls.antt =====
-- The methods of backend/mappings/paragraph_map.py on a map whose index is exact: what they
-- return, what they leave, and any sequence of them.
use multi_tenant_rag_applica.Prelude.{
  ◌≡◌, refl, List, [], ◌∷◌, ◌⊎◌, all, arith, ◌==◌, nat_eq, list_eq, pair_eq, nodup, if◌then◌else◌,
  Bool-cases, Option-cases, inl, inr,
}
use multi_tenant_rag_applica.Python.Text.{Text}
use multi_tenant_rag_applica.Python.Object.{Object}
use multi_tenant_rag_applica.Python.Exec.{
  Result, Error, ok, err, Exec, ◌>>=◌, Result-cases, key_error, value_error,
}
use multi_tenant_rag_applica.Python.Dict.{lookup}
use multi_tenant_rag_applica.Python.Dict.Members.{nodup-insert, nodup-delete}
use multi_tenant_rag_applica.Python.Sorting.{sorted_items}
use multi_tenant_rag_applica.Mappings.Common.{required_uuid}
use multi_tenant_rag_applica.Mappings.Inverse.{empty-IsInverse}
use multi_tenant_rag_applica.Mappings.ParagraphMap.{
  ParagraphKey, ParagraphMap, Chunks, init, set_chunks, is_free_for, replace_document,
  delete_paragraph, delete_document, validate_document_replacement, validated_document_replacement,
  validated_paragraph_key, validated_chunk_ids, pop_paragraph, paragraph,
}
use multi_tenant_rag_applica.Mappings.ParagraphMap.Ownership.{
  popped, replaced, replaced-IsOwned, assign_chunks-replaced, pop_paragraph-popped, popped-IsOwned,
}
use multi_tenant_rag_applica.Mappings.ParagraphMap.Popping.{IsValid, emptied, for_each-emptied}
use multi_tenant_rag_applica.Mappings.ParagraphMap.Validation.{
  validated_document_replacement-Passed, validated_chunk_ids-nodup,
}
use multi_tenant_rag_applica.Mappings.ParagraphMap.Replacement.{for_each-add}
use multi_tenant_rag_applica.Mappings.ParagraphMap.After.{after, after-IsValid, paragraphs-after}

pub data Call : Type 0 where
  set_chunks_of replace replacement_check : Object → Object → Call
  delete_one delete_all : Object → Call

unfoldable pub perform : Call → Exec ParagraphMap (Unit {0})
perform (set_chunks_of paragraph_key chunk_ids) = set_chunks paragraph_key chunk_ids
perform (replace document_id chunks) = replace_document document_id chunks
perform (replacement_check document_id chunks) = validate_document_replacement document_id chunks
perform (delete_one paragraph_key) = delete_paragraph paragraph_key
perform (delete_all document_id) = delete_document document_id

-- An exception ends its own call only.
unfoldable pub run : ParagraphMap → List Call → ParagraphMap
run m [] = m
run m (c ∷ cs) = run (perform c m).1 cs

-- The call raises and changes nothing, or it returns and leaves a valid map.
abbrev pub Settles : ParagraphMap → Result (Unit {0}) × ParagraphMap → Type 0
Settles m r =
    ((e : Error) × (r ≡ (err e, m))) ⊎ ((m' : ParagraphMap) × (r ≡ (ok tt, m')) × IsValid m')

module _ (m : ParagraphMap) (v : IsValid m) where
  pop_paragraph-Settles : (key : ParagraphKey) → Settles m (pop_paragraph key m)
  unfolding pop_paragraph paragraph ◌>>=◌
  pop_paragraph-Settles key = elim (Option-cases (lookup key m.paragraphs)) [
    | inl e ↦ inl (key_error, rw (e, paragraph))
    | inr (ids, e) ↦ inr (
      popped m key ids,
      pop_paragraph-popped m v.owned key ids e,
      record {
        owned = popped-IsOwned m v.owned key ids e;
        unique = nodup-delete key m.paragraphs v.unique;
      },
    )
  ]

  delete_paragraph-Settles : (o : Object) → Settles m (delete_paragraph o m)
  unfolding delete_paragraph ◌>>=◌
  delete_paragraph-Settles o = elim (Result-cases (validated_paragraph_key o)) [
    | inl (key, e) ↦ rw e (pop_paragraph-Settles key)
    | inr (x, e) ↦ inl (x, rw e)
  ]

  delete_document-Settles : (o : Object) → Settles m (delete_document o m)
  unfolding delete_document ◌>>=◌
  delete_document-Settles o = elim (Result-cases (required_uuid o)) [
    | inl (document, e) ↦ inr (
      emptied document m,
      rw e (for_each-emptied document m v).0,
      (for_each-emptied document m v).1,
    )
    | inr (x, e) ↦ inl (x, rw e)
  ]

  set_chunks-Settles : (o ids : Object) → Settles m (set_chunks o ids m)
  unfolding set_chunks ◌>>=◌
  set_chunks-Settles o ids = elim (Result-cases (validated_paragraph_key o)) [
    | inr (x, e) ↦ inl (x, rw e)
    | inl (key, e) ↦ elim (Result-cases (validated_chunk_ids ids)) [
      | inr (x, f) ↦ inl (x, rw (e, f))
      | inl (cs, f) ↦ elim (Bool-cases (all (is_free_for m key) cs)) [
        | inr g ↦ inl (value_error, rw (e, f, g))
        | inl g ↦ inr (
          replaced m key cs,
          rw (e, f, g) (assign_chunks-replaced m v.owned key cs),
          record {
            owned = replaced-IsOwned m v.owned key cs (validated_chunk_ids-nodup ids f) g;
            unique = nodup-insert key cs m.paragraphs v.unique;
          },
        )
      ]
    ]
  ]

  -- Once the checks of `replace_document` pass, it returns: no `del` of its loops raises.
  replace_document-after :
      (o data' : Object) (document : Text) (d : Chunks)
      → required_uuid o ≡ ok document
      → (e : validated_document_replacement document data' m ≡ ok d)
      → replace_document o data' m
        ≡ (ok tt, after document m v d (validated_document_replacement-Passed document data' m d e))
  unfolding replace_document after ◌>>=◌
  replace_document-after o data' document d r e =
      rw (r, e, (for_each-emptied document m v).0)
        (for_each-add document (sorted_items d) (emptied document m))

  replace_document-Settles : (o data' : Object) → Settles m (replace_document o data' m)
  unfolding replace_document ◌>>=◌
  replace_document-Settles o data' = elim (Result-cases (required_uuid o)) [
    | inr (x, r) ↦ inl (x, rw r)
    | inl (document, r) ↦ elim (Result-cases (validated_document_replacement document data' m)) [
      | inr (x, e) ↦ inl (x, rw (r, e))
      | inl (d, e) ↦
          let passed = validated_document_replacement-Passed document data' m d e in
          inr (
            after document m v d passed,
            replace_document-after o data' document d r e,
            after-IsValid document m v d passed,
          )
    ]
  ]

  replacement_check-Settles :
      (o data' : Object) → Settles m (validate_document_replacement o data' m)
  unfolding validate_document_replacement ◌>>=◌
  replacement_check-Settles o data' = elim (Result-cases (required_uuid o)) [
    | inr (x, r) ↦ inl (x, rw r)
    | inl (document, r) ↦ elim (Result-cases (validated_document_replacement document data' m)) [
      | inr (x, e) ↦ inl (x, rw (r, e))
      | inl (d, e) ↦ inr (m, rw (r, e), v)
    ]
  ]

-- On a valid map every call of a mutating method raises and changes nothing, or returns and leaves
-- a valid map: the owner index and the lists of chunks agree, and no chunk is listed twice.
pub perform-Settles : (m : ParagraphMap) (c : Call) → IsValid m → Settles m (perform c m)
unfolding perform
perform-Settles m (set_chunks_of o ids) v = set_chunks-Settles m v o ids
perform-Settles m (replace o d) v = replace_document-Settles m v o d
perform-Settles m (replacement_check o d) v = replacement_check-Settles m v o d
perform-Settles m (delete_one o) v = delete_paragraph-Settles m v o
perform-Settles m (delete_all o) v = delete_document-Settles m v o

run-IsValid : (m : ParagraphMap) (cs : List Call) → IsValid m → IsValid (run m cs)
unfolding run
run-IsValid m [] v = v
run-IsValid m (c ∷ cs) v = run-IsValid (perform c m).1 cs (left (perform-Settles m c v))
  where
    left : Settles m (perform c m) → IsValid (perform c m).1
    left (inl (x, e)) = rw e v
    left (inr (m', e, w)) = rw e w

init-IsValid : (user_id kind : Object) {m : ParagraphMap} → init user_id kind ≡ ok m → IsValid m
unfolding init nodup
init-IsValid user_id kind {m} h =
    let p : m.paragraphs ≡ [] = ground arith in
    let o : m.chunk_owners ≡ [] = ground arith in
    record { owned = rw (p, o) empty-IsInverse; unique = rw p }

-- Whatever methods are called on a new map, valid or not, the index names the owner of exactly the
-- chunks that the paragraphs list.
pub run_paragraphs-IsValid :
    (user_id kind : Object) (cs : List Call) (m : ParagraphMap)
    → init user_id kind ≡ ok m
    → IsValid (run m cs)
run_paragraphs-IsValid user_id kind cs m h = run-IsValid m cs (init-IsValid user_id kind h)

-- On a valid map, `validate_document_replacement` raises exactly what `replace_document` would.
pub validate-exact :
    (o data' : Object) (m : ParagraphMap)
    → IsValid m
    → (validate_document_replacement o data' m).0 ≡ (replace_document o data' m).0
unfolding validate_document_replacement replace_document ◌>>=◌
validate-exact o data' m v = elim (Result-cases (required_uuid o)) [
  | inr (x, r) ↦ rw r
  | inl (document, r) ↦ elim (Result-cases (validated_document_replacement document data' m)) [
    | inr (x, e) ↦ rw (r, e)
    | inl (d, e) ↦ rw (
      r,
      e,
      (for_each-emptied document m v).0,
      for_each-add document (sorted_items d) (emptied document m),
    )
  ]
]

-- `replace_document` on a valid map, when the replacement passes its checks as `d`: it returns, the
-- paragraphs of the document are those of `d`, and those of every other document are untouched.
pub replace_document-replaces :
    (o data' : Object) (m : ParagraphMap) (document : Text) (d : Chunks) (k : ParagraphKey)
    → IsValid m
    → required_uuid o ≡ ok document
    → validated_document_replacement document data' m ≡ ok d
    → ((replace_document o data' m).0 ≡ ok tt)
      × (lookup k (replace_document o data' m).1.paragraphs
          ≡ (if k.0 == document then lookup k.1 d else lookup k m.paragraphs))
replace_document-replaces o data' m document d k v r e =
    rw (replace_document-after m v o data' document d r e) (
      refl,
      paragraphs-after document m v d (validated_document_replacement-Passed document data' m d e)
          k,
    )
