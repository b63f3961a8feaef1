-- ===== src/Mappings/SessionMap.antt =====
-- backend/mappings/session_map.py: ordered conversation IDs for one user's sessions, with the
-- inverse index from a conversation to its session.
pub mod Calls
use multi_tenant_rag_applica.Prelude.{
  Bool, true, false, not, Option, none, some, List, [], ◌∷◌, ◌++◌, ◌==◌, nat_eq, list_eq,
  if◌then◌else◌,
}
use multi_tenant_rag_applica.Python.Text.{Text}
use multi_tenant_rag_applica.Python.Object.{Object}
use multi_tenant_rag_applica.Python.Exec.{
  Result, ok, err, value_error, key_error, bind, guard, Exec, pure, lift, gets, modify, for_each,
  ◌>>=◌, ◌>>◌,
}
use multi_tenant_rag_applica.Python.Dict.{Dict, keys, lookup, has_key, insert, delete, is_some}
use multi_tenant_rag_applica.Mappings.Common.{required_identifier, required_uuid, validated_user_id}

pub record SessionMap : Type 0 where
  pub user_id : Text
  pub sessions : Dict Text (List Text)
  pub conversation_owners : Dict Text Text

unfoldable pub init : Object → Result SessionMap
init user_id =
    bind (validated_user_id user_id)
      λ user. ok (record { user_id = user; sessions = []; conversation_owners = [] })

-- `self._sessions[key]`
session : Text → SessionMap → Result (List Text)
session key m = elim (lookup key m.sessions) [ none ↦ err key_error | some ids ↦ ok ids ]

pub create_session : Object → Exec SessionMap (Unit {0})
create_session session_id = do
  key ← lift (required_identifier session_id)
  exists ← gets (λ m. has_key key m.sessions)
  lift (guard (not exists) value_error)
  modify (λ m. record m { sessions = insert key [] m.sessions })

-- The conversation belongs to no session, or to this one.
is_free_for : SessionMap → Text → Text → Bool
is_free_for m key child_id = elim (lookup child_id m.conversation_owners) [
  | none ↦ true
  | some owner ↦ owner == key
]

-- `conversations` is the list that the session holds, so that appending to it updates the session.
append_conversation : Text → List Text → Text → Exec SessionMap (Unit {0})
append_conversation key conversations child_id = modify (λ m. record m {
  sessions = insert key (conversations ++ child_id ∷ []) m.sessions;
  conversation_owners = insert child_id key m.conversation_owners;
})

-- `if owner is None:`
add_if_new : SessionMap → Text → List Text → Text → Exec SessionMap (Unit {0})
add_if_new m key conversations child_id =
    if is_some (lookup child_id m.conversation_owners)
    then pure tt
    else append_conversation key conversations child_id

pub add_conversation : Object → Object → Exec SessionMap (Unit {0})
unfolding session is_free_for append_conversation add_if_new
add_conversation session_id conversation_id = do
  key ← lift (required_identifier session_id)
  child_id ← lift (required_uuid conversation_id)
  m ← gets (λ m. m)
  conversations ← lift (session key m)
  lift (guard (is_free_for m key child_id) value_error)
  add_if_new m key conversations child_id

pub get_conversations : Object → Exec SessionMap (List Text)
unfolding session
get_conversations session_id = do
  key ← lift (required_identifier session_id)
  m ← gets (λ m. m)
  lift (session key m)

-- `del self._conversation_owners[conversation_id]`
del_owner : Text → Exec SessionMap (Unit {0})
del_owner conversation_id = do
  exists ← gets (λ m. has_key conversation_id m.conversation_owners)
  lift (guard exists key_error)
  modify (λ m. record m { conversation_owners = delete conversation_id m.conversation_owners })

pub delete_session : Object → Exec SessionMap (List Text)
unfolding session del_owner
delete_session session_id = do
  key ← lift (required_identifier session_id)
  m ← gets (λ m. m)
  conversations ← lift (session key m)
  modify (λ m. record m { sessions = delete key m.sessions })
  for_each del_owner conversations
  pure conversations

pub list_sessions : Object → Exec SessionMap (List Text)
list_sessions user_id = do
  requested_user ← lift (validated_user_id user_id)
  m ← gets (λ m. m)
  lift (guard (requested_user == m.user_id) value_error)
  pure (keys m.sessions)
