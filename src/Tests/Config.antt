-- ===== src/Tests/Config.antt =====
-- Collection names of backend/config.py.
use multi_tenant_rag_applica.Prelude.{◌≡◌, refl, nat_eq, list_eq}
use multi_tenant_rag_applica.Python.Text.{text, strip_left, is_space}
use multi_tenant_rag_applica.Python.Object.{str}
use multi_tenant_rag_applica.Python.Exec.{ok}
use multi_tenant_rag_applica.Config.{get_collection_name, checked_collection_type}
use multi_tenant_rag_applica.Config.Isolation.{get_collection_name_injective}

alice_policy :
    get_collection_name (str (text "alice")) (str (text " Policy"))
    ≡ ok (text "RagUser_MFWGSY3F_Policy")
unfolding get_collection_name strip_left is_space
alice_policy = refl

get_collection_name_injective_example :
    (str (text "alice") ≡ str (text "alice"))
    × (checked_collection_type (str (text " Policy"))
        ≡ checked_collection_type (str (text "policy")))
unfolding get_collection_name strip_left is_space
get_collection_name_injective_example =
    get_collection_name_injective (str (text "alice")) (str (text "alice")) (str (text " Policy"))
      (str (text "policy")) (text "RagUser_MFWGSY3F_Policy") refl refl
