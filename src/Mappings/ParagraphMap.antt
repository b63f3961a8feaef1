-- ===== src/Mappings/ParagraphMap.antt =====
-- backend/mappings/paragraph_map.py: ordered chunk IDs for one user's document collection, with
-- the inverse index from a chunk to the paragraph that owns it.
pub mod Loops
pub mod Ownership
pub mod Popping
pub mod After
pub mod Calls
pub mod Replacement
pub mod Validation
use multi_tenant_rag_applica.Prelude.{
  ℕ, ◌≡◌, Bool, true, false, ◌&&◌, ◌||◌, not, Option, none, some, List, [], ◌∷◌, ◌++◌, map, all,
  any, leb, ◌==◌, nat_eq, list_eq, pair_eq, contains, nodup, if◌then◌else◌,
}
use multi_tenant_rag_applica.Python.Text.{Text, is_empty}
use multi_tenant_rag_applica.Python.Object.{
  Object, Objects, Entries, list, tuple, mapping, cons, nil, str, items, elements,
}
use multi_tenant_rag_applica.Python.Exec.{
  Result, ok, err, type_error, value_error, key_error, bind, guard, traverse, Exec, pure, lift,
  gets, modify, for_each, ◌>>=◌, ◌>>◌,
}
use multi_tenant_rag_applica.Python.Dict.{Dict, keys, lookup, has_key, insert, delete}
use multi_tenant_rag_applica.Python.Sorting.{sort_by, sorted_items, text_le}
use multi_tenant_rag_applica.Mappings.Common.{
  required_uuid, validated_user_id, validated_document_collection_type, positive_paragraph_id,
}
use multi_tenant_rag_applica.Mappings.DocumentMap.{covers_range}

abbrev pub ParagraphKey : Type 0
ParagraphKey = Text × ℕ

abbrev pub Chunks : Type 0
Chunks = Dict ℕ (List Text)

pub record ParagraphMap : Type 0 where
  pub user_id : Text
  pub collection_type : Text
  pub paragraphs : Dict ParagraphKey (List Text)
  pub chunk_owners : Dict Text ParagraphKey

unfoldable pub init : Object → Object → Result ParagraphMap
init user_id collection_type = bind (validated_user_id user_id) λ user.
    bind (validated_document_collection_type collection_type) λ kind.
      ok (record { user_id = user; collection_type = kind; paragraphs = []; chunk_owners = [] })

unfoldable pub validated_paragraph_key : Object → Result ParagraphKey
validated_paragraph_key (tuple (cons d (cons p nil))) =
    bind (required_uuid d)
      λ document_id. bind (positive_paragraph_id p) λ paragraph_id. ok (document_id, paragraph_id)
validated_paragraph_key _ = err type_error

unfoldable pub validated_chunk_ids : Object → Result (List Text)
validated_chunk_ids (list xs) =
    bind (traverse required_uuid (elements xs))
      λ ids. bind (guard (nodup ids) value_error) λ _. ok ids
validated_chunk_ids _ = err type_error

-- The chunk belongs to no paragraph, or to this one.
unfoldable pub is_free_for : ParagraphMap → ParagraphKey → Text → Bool
is_free_for m key chunk_id = elim (lookup chunk_id m.chunk_owners) [
  | none ↦ true
  | some owner ↦ owner == key
]

-- `del self._chunk_owners[chunk_id]`
unfoldable pub del_owner : Text → Exec ParagraphMap (Unit {0})
del_owner chunk_id = do
  exists ← gets (λ m. has_key chunk_id m.chunk_owners)
  lift (guard exists key_error)
  modify (λ m. record m { chunk_owners = delete chunk_id m.chunk_owners })

unfoldable pub del_unless : List Text → Text → Exec ParagraphMap (Unit {0})
unfolding del_owner
del_unless kept chunk_id = if contains chunk_id kept then pure tt else del_owner chunk_id

-- `self._chunk_owners[chunk_id] = key`
unfoldable pub set_owner : ParagraphKey → Text → Exec ParagraphMap (Unit {0})
set_owner key chunk_id =
    modify (λ m. record m { chunk_owners = insert chunk_id key m.chunk_owners })

unfoldable pub set_paragraph : ParagraphKey → List Text → Exec ParagraphMap (Unit {0})
set_paragraph key ids = modify (λ m. record m { paragraphs = insert key ids m.paragraphs })

-- `self._paragraphs.get(key, [])`
unfoldable pub chunks_at : ParagraphKey → ParagraphMap → List Text
chunks_at key m = elim (lookup key m.paragraphs) [ none ↦ [] | some ids ↦ ids ]

-- The mutation of `set_chunks`, behind its checks.
unfoldable pub assign_chunks : ParagraphKey → List Text → Exec ParagraphMap (Unit {0})
assign_chunks key validated = do
  m ← gets (λ m. m)
  for_each (del_unless validated) (chunks_at key m)
  for_each (set_owner key) validated
  set_paragraph key validated

unfoldable pub set_chunks : Object → Object → Exec ParagraphMap (Unit {0})
unfolding validated_chunk_ids
set_chunks paragraph_key chunk_ids = do
  key ← lift (validated_paragraph_key paragraph_key)
  validated ← lift (validated_chunk_ids chunk_ids)
  m ← gets (λ m. m)
  lift (guard (all (is_free_for m key) validated) value_error)
  assign_chunks key validated

-- `self._paragraphs[key]`
pub paragraph : ParagraphKey → ParagraphMap → Result (List Text)
paragraph key m = elim (lookup key m.paragraphs) [ none ↦ err key_error | some ids ↦ ok ids ]

pub get_chunks : Object → Exec ParagraphMap (List Text)
get_chunks paragraph_key = do
  key ← lift (validated_paragraph_key paragraph_key)
  m ← gets (λ m. m)
  lift (paragraph key m)

-- The order of (document_id, paragraph_id) tuples.
pub key_order : ParagraphKey → ParagraphKey → Bool
key_order (d, p) (e, q) = if d == e then leb p q else text_le d e

-- The comprehension over the sorted keys of one document.
pub chunks_of : Text → List ParagraphKey → ParagraphMap → Result Chunks
chunks_of document [] m = ok []
chunks_of document ((mapped_document, paragraph_id) ∷ ks) m =
    if mapped_document == document
    then (bind (paragraph (document, paragraph_id) m)
        λ ids. bind (chunks_of document ks m) λ rest. ok ((paragraph_id, ids) ∷ rest))
    else chunks_of document ks m

pub get_document_chunks : Object → Exec ParagraphMap Chunks
unfolding chunks_of key_order
get_document_chunks document_id = do
  document ← lift (required_uuid document_id)
  m ← gets (λ m. m)
  lift (chunks_of document (sort_by key_order (keys m.paragraphs)) m)

-- The loop of `_validated_document_replacement`, with the chunks seen so far.
unfoldable pub validated_entries :
    List (Object × Object) → List Text → Chunks → Result (List Text × Chunks)
validated_entries [] seen_chunks validated = ok (seen_chunks, validated)
validated_entries ((raw_paragraph_id, raw_chunk_ids) ∷ rest) seen_chunks validated =
    bind (positive_paragraph_id raw_paragraph_id) λ paragraph_id.
      bind (validated_chunk_ids raw_chunk_ids) λ chunk_ids.
        bind (guard (not (any (λ c. contains c seen_chunks) chunk_ids)) value_error) λ _.
          validated_entries rest (chunk_ids ++ seen_chunks)
            (insert paragraph_id chunk_ids validated)

-- The chunk belongs to no paragraph, or to one of this document.
unfoldable pub is_free_for_document : ParagraphMap → Text → Text → Bool
is_free_for_document m document chunk_id = elim (lookup chunk_id m.chunk_owners) [
  | none ↦ true
  | some owner ↦ owner.0 == document
]

-- `{1: []}` stands for no paragraph at all.
unfoldable pub sequential_chunks : Chunks → Result Chunks
sequential_chunks validated =
    if is_empty validated
    then ok ((1, []) ∷ [])
    else bind (guard (covers_range (keys validated)) value_error) λ _. ok validated

unfoldable pub validated_document_replacement : Text → Object → ParagraphMap → Result Chunks
validated_document_replacement document (mapping es) m =
    bind (validated_entries (items es) [] []) λ found. bind (sequential_chunks found.1) λ validated.
      bind (guard (all (is_free_for_document m document) found.0) value_error)
        λ _. ok (sorted_items validated)
validated_document_replacement document _ m = err type_error

pub validate_document_replacement : Object → Object → Exec ParagraphMap (Unit {0})
validate_document_replacement document_id paragraph_chunks = do
  document ← lift (required_uuid document_id)
  m ← gets (λ m. m)
  lift (validated_document_replacement document paragraph_chunks m)
  pure tt

-- `for chunk_id in self._paragraphs.pop(key): del self._chunk_owners[chunk_id]`
pub pop_paragraph : ParagraphKey → Exec ParagraphMap (Unit {0})
unfolding paragraph
pop_paragraph key = do
  m ← gets (λ m. m)
  chunk_ids ← lift (paragraph key m)
  modify (λ m. record m { paragraphs = delete key m.paragraphs })
  for_each del_owner chunk_ids

-- `[key for key in self._paragraphs if key[0] == document]`
pub document_keys : Text → List ParagraphKey → List ParagraphKey
document_keys document [] = []
document_keys document (k ∷ ks) =
    let rest = document_keys document ks in if k.0 == document then k ∷ rest else rest

pub add_paragraph : Text → ℕ × List Text → Exec ParagraphMap (Unit {0})
add_paragraph document (paragraph_id, chunk_ids) = do
  set_paragraph (document, paragraph_id) chunk_ids
  for_each (set_owner (document, paragraph_id)) chunk_ids

pub replace_document : Object → Object → Exec ParagraphMap (Unit {0})
replace_document document_id paragraph_chunks = do
  document ← lift (required_uuid document_id)
  m ← gets (λ m. m)
  validated ← lift (validated_document_replacement document paragraph_chunks m)
  for_each pop_paragraph (document_keys document (keys m.paragraphs))
  for_each (add_paragraph document) (sorted_items validated)

pub delete_paragraph : Object → Exec ParagraphMap (Unit {0})
delete_paragraph paragraph_key = do
  key ← lift (validated_paragraph_key paragraph_key)
  pop_paragraph key

pub delete_document : Object → Exec ParagraphMap (Unit {0})
delete_document document_id = do
  document ← lift (required_uuid document_id)
  m ← gets (λ m. m)
  for_each pop_paragraph (document_keys document (keys m.paragraphs))
