-- ===== src/Config/Base32.antt =====
-- `base64.b32encode` of the standard library, with `rstrip("=")`, and `str.encode("utf-8")`, as
-- `get_collection_name` of backend/config.py calls them.
pub mod Injective
pub mod Stripped
use multi_tenant_rag_applica.Prelude.{
  ℕ, zero, suc, ◌+◌, ◌-◌, ◌*◌, ◌/◌, ◌%◌, Bool, true, false, List, [], ◌∷◌, ◌++◌, ltb, nat_beq,
  if◌then◌else◌, take,
}
use multi_tenant_rag_applica.Python.Text.{Text, strip_right}

-- The UTF-8 bytes of one code point. (`encode` raises at a surrogate; a user identifier has none.)
unfoldable pub utf8_char : ℕ → List ℕ
utf8_char c =
    if ltb c 128
    then c ∷ []
    else if ltb c 2048
    then (192 + c / 64) ∷ (128 + c % 64) ∷ []
    else if ltb c 65536
    then (224 + c / 4096) ∷ (128 + c / 64 % 64) ∷ (128 + c % 64) ∷ []
    else (240 + c / 262144) ∷ (128 + c / 4096 % 64) ∷ (128 + c / 64 % 64) ∷ (128 + c % 64) ∷ []

unfoldable pub utf8 : Text → List ℕ
unfolding utf8_char
utf8 [] = []
utf8 (c ∷ cs) = utf8_char c ++ utf8 cs

-- The RFC 4648 alphabet, A to Z and 2 to 7.
unfoldable pub b32_char : ℕ → ℕ
b32_char v = if ltb v 26 then v + 65 else v + 24

-- The `count` last base 32 digits of a number, the most significant first.
unfoldable pub b32_digits : ℕ → ℕ → Text
unfolding b32_char
b32_digits zero n = []
b32_digits (suc count) n = b32_digits count (n / 32) ++ b32_char (n % 32) ∷ []

-- Five bytes are one big-endian number of forty bits.
unfoldable pub quintet : ℕ → ℕ → ℕ → ℕ → ℕ → ℕ
quintet a b c d e = (((a * 256 + b) * 256 + c) * 256 + d) * 256 + e

-- Five bytes at a time; the last group is filled with zero bytes, and what stands for no byte of
-- it is overwritten by `=`.
unfoldable pub b32encode : List ℕ → Text
unfolding b32_digits quintet
b32encode [] = []
b32encode (a ∷ []) = take 2 (b32_digits 8 (quintet a 0 0 0 0)) ++ 61 ∷ 61 ∷ 61 ∷ 61 ∷ 61 ∷ 61 ∷ []
b32encode (a ∷ b ∷ []) = take 4 (b32_digits 8 (quintet a b 0 0 0)) ++ 61 ∷ 61 ∷ 61 ∷ 61 ∷ []
b32encode (a ∷ b ∷ c ∷ []) = take 5 (b32_digits 8 (quintet a b c 0 0)) ++ 61 ∷ 61 ∷ 61 ∷ []
b32encode (a ∷ b ∷ c ∷ d ∷ []) = take 7 (b32_digits 8 (quintet a b c d 0)) ++ 61 ∷ []
b32encode (a ∷ b ∷ c ∷ d ∷ e ∷ rest) = b32_digits 8 (quintet a b c d e) ++ b32encode rest

-- `base64.b32encode(user_id.encode("utf-8")).decode("ascii").rstrip("=")`
unfoldable pub user_token : Text → Text
unfolding utf8 b32encode strip_right
user_token user_id = strip_right (nat_beq 61) (b32encode (utf8 user_id))
