-- ===== src/Mappings/ParagraphMap/Popping.antt =====
-- The loop that pops every paragraph of a document, in `replace_document` and `delete_document` of
-- backend/mappings/paragraph_map.py.
use multi_tenant_rag_applica.Prelude.{
  ◌≡◌, refl, true, ◌&&◌, none, List, [], ◌∷◌, ◌⊎◌, arith, ◌==◌, nat_eq, list_eq, pair_eq, eq_iff,
  contains, nodup, if◌then◌else◌, Option-cases, inl, inr, contains_head, contains_tail,
  eq-false_of_contains,
}
use multi_tenant_rag_applica.Python.Text.{Text}
use multi_tenant_rag_applica.Python.Exec.{ok, for_each, ◌>>=◌}
use multi_tenant_rag_applica.Python.Dict.{keys, lookup, has_key, lookup-delete}
use multi_tenant_rag_applica.Python.Dict.Members.{contains-keys, nodup-delete}
use multi_tenant_rag_applica.Mappings.Inverse.{lookup-drop_all}
use multi_tenant_rag_applica.Mappings.ParagraphMap.{
  ParagraphKey, ParagraphMap, chunks_at, pop_paragraph, document_keys,
}
use multi_tenant_rag_applica.Mappings.ParagraphMap.Ownership.{
  IsOwned, popped, pop_paragraph-popped, popped-IsOwned,
}

-- The invariant of a `ParagraphMap`: its index is exact, and its dictionary has distinct keys.
pub record IsValid (m : ParagraphMap) : Type 0 where
  pub owned : IsOwned m
  pub unique : nodup (keys m.paragraphs) ≡ true

pub pop_all : List ParagraphKey → ParagraphMap → ParagraphMap
pop_all [] m = m
pop_all (k ∷ ks) m = pop_all ks (popped m k (chunks_at k m))

pub paragraphs-pop_all :
    (ks : List ParagraphKey) (m : ParagraphMap) (k : ParagraphKey)
    → lookup k (pop_all ks m).paragraphs ≡ (if contains k ks then none else lookup k m.paragraphs)
unfolding pop_all contains
paragraphs-pop_all [] m k = refl
paragraphs-pop_all (j ∷ ks) m k =
    rw (paragraphs-pop_all ks (popped m j (chunks_at j m)) k, lookup-delete j k m.paragraphs)
      (ground arith)

-- Popping only takes owners away.
pub owners-pop_all :
    (ks : List ParagraphKey) (m : ParagraphMap) (c : Text)
    → (lookup c (pop_all ks m).chunk_owners ≡ none)
      ⊎ (lookup c (pop_all ks m).chunk_owners ≡ lookup c m.chunk_owners)
unfolding pop_all
owners-pop_all [] m c = inr refl
owners-pop_all (j ∷ ks) m c = ground (
  arith,
  owners-pop_all ks (popped m j (chunks_at j m)) c,
  lookup-drop_all [] (chunks_at j m) c m.chunk_owners,
)

contains-document_keys :
    (document : Text) (ks : List ParagraphKey) (k : ParagraphKey)
    → contains k (document_keys document ks) ≡ (k.0 == document && contains k ks)
unfolding document_keys contains
contains-document_keys document [] k = ground arith
contains-document_keys document (j ∷ ks) k = ground (
  arith,
  contains-document_keys document ks k,
  eq_iff j k,
  eq_iff j.0 document,
  eq_iff k.0 document,
)

nodup-document_keys :
    (document : Text) (ks : List ParagraphKey)
    → nodup ks ≡ true
    → nodup (document_keys document ks) ≡ true
unfolding document_keys nodup
nodup-document_keys document [] h = refl
nodup-document_keys document (j ∷ ks) h =
    ground (arith, nodup-document_keys document ks, contains-document_keys document ks j)

-- The loop succeeds on distinct keys that are there, and keeps the invariant.
for_each-pop :
    (ks : List ParagraphKey) (m : ParagraphMap)
    → IsValid m
    → nodup ks ≡ true
    → ((k : ParagraphKey) → contains k ks ≡ true → has_key k m.paragraphs ≡ true)
    → (for_each pop_paragraph ks m ≡ (ok tt, pop_all ks m)) × IsValid (pop_all ks m)
unfolding for_each pop_all nodup contains chunks_at ◌>>=◌
for_each-pop [] m v n h = (refl, v)
for_each-pop (k ∷ ks) m v n h = elim (Option-cases (lookup k m.paragraphs)) [
  | inl e ↦
      let there : has_key k m.paragraphs ≡ true = h k (contains_head k ks) in absurd (ground arith)
  | inr (ids, e) ↦
      let here : chunks_at k m ≡ ids = rw (e, chunks_at) refl in
      rw (here, pop_paragraph-popped m v.owned k ids e)
        (for_each-pop ks (popped m k ids)
          (record {
            owned = popped-IsOwned m v.owned k ids e;
            unique = nodup-delete k m.paragraphs v.unique;
          })
          (ground arith)
          (λ j i.
            rw (lookup-delete k j m.paragraphs, eq-false_of_contains k j ks (ground arith) i)
              (h j (contains_tail j k ks i))))
]

has_key-document_keys :
    (document : Text) (m : ParagraphMap) (k : ParagraphKey)
    → contains k (document_keys document (keys m.paragraphs)) ≡ true
    → has_key k m.paragraphs ≡ true
has_key-document_keys document m k h =
    ground
      (arith, contains-document_keys document (keys m.paragraphs) k, contains-keys k m.paragraphs)

-- The paragraphs of one document are popped, those of the others stay.
pub emptied : Text → ParagraphMap → ParagraphMap
emptied document m = pop_all (document_keys document (keys m.paragraphs)) m

module _ (document : Text) (m : ParagraphMap) (v : IsValid m) where
  pub for_each-emptied :
      (for_each pop_paragraph (document_keys document (keys m.paragraphs)) m
        ≡ (ok tt, emptied document m))
      × IsValid (emptied document m)
  unfolding emptied
  for_each-emptied =
      for_each-pop (document_keys document (keys m.paragraphs)) m v
        (nodup-document_keys document (keys m.paragraphs) v.unique)
        (has_key-document_keys document m)

  pub paragraphs-emptied :
      (k : ParagraphKey)
      → lookup k (emptied document m).paragraphs
        ≡ (if k.0 == document then none else lookup k m.paragraphs)
  unfolding emptied
  paragraphs-emptied k = rw (paragraphs-pop_all (document_keys document (keys m.paragraphs)) m k) (
      ground (
        arith,
        contains-document_keys document (keys m.paragraphs) k,
        contains-keys k m.paragraphs,
      ))

  pub owners-emptied :
      (c : Text)
      → (lookup c (emptied document m).chunk_owners ≡ none)
        ⊎ (lookup c (emptied document m).chunk_owners ≡ lookup c m.chunk_owners)
  unfolding emptied
  owners-emptied c = owners-pop_all (document_keys document (keys m.paragraphs)) m c
