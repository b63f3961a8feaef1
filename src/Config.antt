-- ===== src/Config.antt =====
-- backend/config.py: the physical collection name of a user and a collection type. The pattern of
-- user identifiers is configurable; it is modelled at its default, `^[A-Za-z0-9_-]+$`.
pub mod Base32
pub mod Isolation
use multi_tenant_rag_applica.Prelude.{
  ℕ, Bool, true, false, ◌&&◌, ◌||◌, not, Option, none, some, List, [], ◌∷◌, ◌++◌, leb, nat_beq, all,
  ◌==◌, nat_eq, list_eq, if◌then◌else◌,
}
use multi_tenant_rag_applica.Python.Text.{Text, text, strip, lower, is_empty}
use multi_tenant_rag_applica.Python.Object.{Object, str}
use multi_tenant_rag_applica.Python.Exec.{Result, ok, err, type_error, value_error, bind, guard}
use Base32.{user_token}

-- `[A-Za-z0-9_-]`
unfoldable pub is_user_id_char : ℕ → Bool
is_user_id_char c =
    leb 65 c && leb c 90
    || leb 97 c && leb c 122
    || leb 48 c && leb c 57
    || nat_beq c 95
    || nat_beq c 45

-- `_USER_ID_PATTERN.fullmatch`
unfoldable pub matches_user_id : Text → Bool
unfolding is_user_id_char
matches_user_id t = not (is_empty t) && all is_user_id_char t

pub data CollectionType : Type 0 where
  conversations knowledge_facts policy : CollectionType

-- `_COLLECTION_TYPE_SUFFIXES`
unfoldable pub suffix : CollectionType → Text
suffix conversations = text "Conversations"
suffix knowledge_facts = text "KnowledgeFacts"
suffix policy = text "Policy"

unfoldable pub collection_name : CollectionType → Text
collection_name conversations = text "conversations"
collection_name knowledge_facts = text "knowledge_facts"
collection_name policy = text "policy"

-- Membership in `COLLECTION_TYPES`, of a text that is stripped and in lower case.
unfoldable pub collection_type_of : Text → Option CollectionType
unfolding collection_name
collection_type_of t =
    if t == collection_name conversations
    then some conversations
    else if t == collection_name knowledge_facts
    then some knowledge_facts
    else if t == collection_name policy
    then some policy
    else none

pub checked_user_id : Object → Result Text
unfolding matches_user_id strip
checked_user_id (str user_id) = bind (guard (not (is_empty user_id)) value_error) λ _.
    bind (guard (user_id == strip user_id) value_error)
      λ _. bind (guard (matches_user_id user_id) value_error) λ _. ok user_id
checked_user_id _ = err type_error

pub checked_collection_type : Object → Result CollectionType
unfolding collection_type_of strip lower
checked_collection_type (str collection_type) =
    elim (collection_type_of (lower (strip collection_type))) [
      | some c ↦ ok c
      | none ↦ err value_error
    ]
checked_collection_type _ = err type_error

unfoldable pub physical_name : Text → CollectionType → Text
unfolding user_token suffix
physical_name user_id c = text "RagUser_" ++ (user_token user_id ++ (text "_" ++ suffix c))

unfoldable pub get_collection_name : Object → Object → Result Text
unfolding checked_user_id checked_collection_type physical_name
get_collection_name user_id collection_type =
    bind (checked_user_id user_id)
      λ user. bind (checked_collection_type collection_type) λ c. ok (physical_name user c)
