-- ===== src/Python/Text.antt =====
-- Python's `str` as the list of its code points, with the methods that the program calls.
use Prim.Native.Char.{code}
use Prim.Native.String.{String}
use multi_tenant_rag_applica.Prelude.{
  ℕ, ◌+◌, Bool, true, false, ◌&&◌, ◌||◌, List, [], ◌∷◌, map, leb, nat_beq, if◌then◌else◌,
}

abbrev pub Text : Type 0
Text = List ℕ

-- A literal.
abbrev pub text : String → Text
text String.[] = []
text (String.◌∷◌ c s) = code c ∷ text s

-- `str.isspace` of one character.
unfoldable pub is_space : ℕ → Bool
is_space c =
    leb 9 c && leb c 13
    || leb 28 c && leb c 32
    || nat_beq c 133
    || nat_beq c 160
    || nat_beq c 5760
    || leb 8192 c && leb c 8202
    || nat_beq c 8232
    || nat_beq c 8233
    || nat_beq c 8239
    || nat_beq c 8287
    || nat_beq c 12288

abbrev pub is_empty {ℓ} : {A : Type ℓ} → List A → Bool
is_empty [] = true
is_empty (x ∷ xs) = false

module _ (drops : ℕ → Bool) where
  unfoldable pub strip_left : Text → Text
  strip_left [] = []
  strip_left (c ∷ cs) = let rest = strip_left cs in if drops c then rest else c ∷ cs

  unfoldable pub strip_right : Text → Text
  strip_right [] = []
  strip_right (c ∷ cs) =
      let rest = strip_right cs in if drops c && is_empty rest then [] else c ∷ rest

-- `str.strip()`
unfoldable pub strip : Text → Text
strip t = strip_right is_space (strip_left is_space t)

-- `str.lower`, as far as a comparison with ASCII words can tell: the ASCII capitals, and the
-- Kelvin sign, which is the one other character whose lower case is ASCII.
unfoldable pub lower_char : ℕ → ℕ
lower_char c = if leb 65 c && leb c 90 then c + 32 else if nat_beq c 8490 then 107 else c

unfoldable pub lower : Text → Text
unfolding lower_char
lower = map lower_char
