-- ===== src/Tests/Given.antt =====
-- The users, identifiers and values that the examples share.
use multi_tenant_rag_applica.Python.Uuid.{uuid}
use multi_tenant_rag_applica.Prelude.{◌≡◌, refl, nat_eq, list_eq}
use multi_tenant_rag_applica.Python.Text.{Text, text, strip, strip_right, strip_left, is_space}
use multi_tenant_rag_applica.Python.Object.{str}
use multi_tenant_rag_applica.Python.Exec.{ok}
use multi_tenant_rag_applica.Mappings.Common.{required_uuid, required_identifier}

abbrev pub alice : Text
alice = text "alice"

abbrev pub bob : Text
bob = text "bob"

abbrev pub id_1 : Text
id_1 = text "00000000-0000-0000-0000-00000000000a"

abbrev pub id_2 : Text
id_2 = text "00000000-0000-0000-0000-00000000000b"

abbrev pub id_3 : Text
id_3 = text "00000000-0000-0000-0000-00000000000c"

canonical : required_uuid (str (text " 0000000000000000000000000000000A")) ≡ ok id_1
unfolding required_uuid required_identifier strip strip_right strip_left is_space uuid
canonical = refl

pub id_1-canonical : required_uuid (str id_1) ≡ ok id_1
unfolding required_uuid required_identifier strip strip_right strip_left is_space uuid
id_1-canonical = refl
