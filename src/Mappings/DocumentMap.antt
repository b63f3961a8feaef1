-- ===== src/Mappings/DocumentMap.antt =====
-- backend/mappings/document_map.py: ordered paragraph text for one user and document collection.
pub mod Sequential
pub mod Calls
pub mod Snapshot
use mathlib.Core.List.{flatten}
use multi_tenant_rag_applica.Prelude.{
  ℕ, ◌≡◌, Bool, true, false, ◌&&◌, not, Option, none, some, List, [], ◌∷◌, all, length, nat_eq,
  list_eq, contains, if◌then◌else◌,
}
use multi_tenant_rag_applica.Python.Text.{Text, is_empty}
use multi_tenant_rag_applica.Python.Object.{Object, Entries, mapping, str, items}
use multi_tenant_rag_applica.Python.Exec.{
  Result, ok, err, type_error, value_error, key_error, bind, guard, Exec, pure, lift, gets, modify,
  ◌>>=◌, ◌>>◌,
}
use multi_tenant_rag_applica.Python.Dict.{Dict, keys, values, lookup, has_key, insert, delete}
use multi_tenant_rag_applica.Python.Sorting.{sorted_items, count_up}
use multi_tenant_rag_applica.Mappings.Common.{
  required_uuid, validated_user_id, validated_document_collection_type, positive_paragraph_id,
}

abbrev pub Paragraphs : Type 0
Paragraphs = Dict ℕ Text

pub record DocumentMap : Type 0 where
  pub user_id : Text
  pub collection_type : Text
  pub documents : Dict Text Paragraphs

unfoldable pub init : Object → Object → Result DocumentMap
init user_id collection_type = bind (validated_user_id user_id) λ user.
    bind (validated_document_collection_type collection_type)
      λ kind. ok (record { user_id = user; collection_type = kind; documents = [] })

-- `{1: ""}`
abbrev pub blank : Paragraphs
blank = (1, []) ∷ []

unfoldable pub paragraph_text : Object → Result Text
paragraph_text (str t) = ok t
paragraph_text _ = err type_error

-- The loop over the items of the replacement.
unfoldable pub validated_items : List (Object × Object) → Paragraphs → Result Paragraphs
unfolding paragraph_text
validated_items [] validated = ok validated
validated_items ((paragraph_id, t) ∷ rest) validated =
    bind (positive_paragraph_id paragraph_id)
      λ paragraph. bind (paragraph_text t) λ s. validated_items rest (insert paragraph s validated)

-- `set(ids) == set(range(1, len(ids) + 1))`
unfoldable pub covers_range : List ℕ → Bool
covers_range ids =
    let range = count_up 1 (length ids) in
    all (λ k. contains k range) ids && all (λ k. contains k ids) range

unfoldable pub sequential : Paragraphs → Result Paragraphs
unfolding covers_range
sequential validated =
    if is_empty validated
    then ok blank
    else if covers_range (keys validated)
    then ok (sorted_items validated)
    else err value_error

unfoldable pub validated_replacement : Object → Result Paragraphs
unfolding validated_items sequential
validated_replacement (mapping es) = bind (validated_items (items es) []) sequential
validated_replacement _ = err type_error

-- `self._documents[key]`
unfoldable pub document : Text → DocumentMap → Result Paragraphs
document key m = elim (lookup key m.documents) [ none ↦ err key_error | some d ↦ ok d ]

unfoldable pub store : Text → Paragraphs → Exec DocumentMap (Unit {0})
store key d = modify (λ m. record m { documents = insert key d m.documents })

unfoldable pub discard : Text → Exec DocumentMap (Unit {0})
discard key = modify (λ m. record m { documents = delete key m.documents })

unfoldable pub create_document : Object → Exec DocumentMap (Unit {0})
unfolding store
create_document document_id = do
  key ← lift (required_uuid document_id)
  exists ← gets (λ m. has_key key m.documents)
  lift (guard (not exists) value_error)
  store key blank

pub get_paragraphs : Object → Exec DocumentMap (List ℕ)
unfolding document
get_paragraphs document_id = do
  key ← lift (required_uuid document_id)
  m ← gets (λ m. m)
  d ← lift (document key m)
  pure (keys d)

pub get_full_text : Object → Exec DocumentMap Text
unfolding document
get_full_text document_id = do
  key ← lift (required_uuid document_id)
  m ← gets (λ m. m)
  d ← lift (document key m)
  pure (flatten (values d))

unfoldable pub get_paragraph_data : Object → Exec DocumentMap Paragraphs
unfolding document
get_paragraph_data document_id = do
  key ← lift (required_uuid document_id)
  m ← gets (λ m. m)
  lift (document key m)

pub list_documents : DocumentMap → List Text
list_documents m = keys m.documents

unfoldable pub update_paragraphs : Object → Object → Exec DocumentMap (Unit {0})
unfolding store
update_paragraphs document_id new_paragraph_data = do
  key ← lift (required_uuid document_id)
  exists ← gets (λ m. has_key key m.documents)
  lift (guard exists key_error)
  d ← lift (validated_replacement new_paragraph_data)
  store key d

pub validate_update : Object → Object → Exec DocumentMap (Unit {0})
validate_update document_id new_paragraph_data = do
  key ← lift (required_uuid document_id)
  exists ← gets (λ m. has_key key m.documents)
  lift (guard exists key_error)
  lift (validated_replacement new_paragraph_data)
  pure tt

pub restore_document : Object → Object → Exec DocumentMap (Unit {0})
unfolding store
restore_document document_id paragraph_data = do
  key ← lift (required_uuid document_id)
  d ← lift (validated_replacement paragraph_data)
  store key d

unfoldable pub delete_document : Object → Exec DocumentMap (Unit {0})
unfolding discard
delete_document document_id = do
  key ← lift (required_uuid document_id)
  exists ← gets (λ m. has_key key m.documents)
  lift (guard exists key_error)
  discard key
