-- ===== src/Tests/Sessions.antt =====
-- A `SessionMap` of backend/mappings/session_map.py.
use multi_tenant_rag_applica.Config.{get_collection_name}
use multi_tenant_rag_applica.Mappings.Common.{validated_user_id}
use multi_tenant_rag_applica.Prelude.{refl, List, [], ◌∷◌, nat_eq, list_eq}
use multi_tenant_rag_applica.Python.Text.{text, strip_left, is_space}
use multi_tenant_rag_applica.Python.Object.{str}
use multi_tenant_rag_applica.Mappings.SessionMap.{SessionMap, init}
use multi_tenant_rag_applica.Mappings.SessionMap.Calls.{
  Call, create, add, remove, run, IsValid, run_sessions-IsValid,
}
use multi_tenant_rag_applica.Tests.Given.{alice, id_1, id_2}

abbrev new_map : SessionMap
new_map = record { user_id = alice; sessions = []; conversation_owners = [] }

abbrev calls : List Call
calls =
    create (str (text "s"))
    ∷ add (str (text "s")) (str id_1)
    ∷ add (str (text "s")) (str id_2)
    ∷ remove (str (text "s"))
    ∷ []

run_sessions-IsValid_example : IsValid (run new_map calls)
unfolding init validated_user_id get_collection_name strip_left is_space
run_sessions-IsValid_example = run_sessions-IsValid (str alice) calls new_map refl
