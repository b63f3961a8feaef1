-- ===== src/Mappings/Common.antt =====
-- backend/mappings/_common.py: validation shared by the mapping classes.
use multi_tenant_rag_applica.Prelude.{
  ℕ, zero, suc, Bool, not, none, some, ◌==◌, nat_eq, list_eq, ◌||◌,
}
use multi_tenant_rag_applica.Python.Text.{Text, text, strip, lower, is_empty}
use multi_tenant_rag_applica.Python.Uuid.{uuid}
use multi_tenant_rag_applica.Python.Object.{Object, str, int, pos, negsuc}
use multi_tenant_rag_applica.Python.Exec.{Result, ok, err, type_error, value_error, bind, guard}
use multi_tenant_rag_applica.Config.{get_collection_name}

unfoldable pub required_identifier : Object → Result Text
required_identifier (str value) =
    let normalized = strip value in
    bind (guard (not (is_empty normalized)) value_error) λ _. ok normalized
required_identifier _ = err type_error

unfoldable pub required_uuid : Object → Result Text
required_uuid value =
    bind (required_identifier value)
      λ raw_value. elim (uuid raw_value) [ none ↦ err value_error | some canonical ↦ ok canonical ]

unfoldable pub validated_user_id : Object → Result Text
validated_user_id (str user_id) =
    bind (get_collection_name (str user_id) (str (text "conversations"))) λ _. ok user_id
validated_user_id _ = err type_error

-- `DOCUMENT_COLLECTION_TYPES`
unfoldable pub is_document_collection_type : Text → Bool
is_document_collection_type t = t == text "knowledge_facts" || t == text "policy"

unfoldable pub validated_document_collection_type : Object → Result Text
unfolding is_document_collection_type
validated_document_collection_type collection_type =
    bind (required_identifier collection_type) λ identifier.
      let normalized = lower identifier in
      bind (guard (is_document_collection_type normalized) value_error) λ _. ok normalized

-- `isinstance(True, int)` holds in Python, so the code refuses booleans by a test of their own.
unfoldable pub positive_paragraph_id : Object → Result ℕ
positive_paragraph_id (int (pos zero)) = err value_error
positive_paragraph_id (int (pos (suc n))) = ok (suc n)
positive_paragraph_id (int (negsuc n)) = err value_error
positive_paragraph_id _ = err type_error
