-- ===== src/Python/Uuid.antt =====
-- `str(UUID(value))` of the standard library: the accepted spellings, and the canonical one.
-- Decimal digits outside ASCII, which `int` also takes, are refused here.
use multi_tenant_rag_applica.Prelude.{
  ℕ, zero, suc, ◌+◌, ◌-◌, ◌*◌, ◌/◌, ◌%◌, Bool, true, false, ◌&&◌, ◌||◌, not, Option, none, some, [],
  ◌∷◌, ◌++◌, ltb, leb, nat_beq, if◌then◌else◌, length, take, drop,
}
use multi_tenant_rag_applica.Python.Text.{Text, text, strip, strip_left, strip_right}

-- `text.replace(word, "")`: `skip` counts what is left to drop of an occurrence.
begins : Text → Text → Bool
begins [] t = true
begins (w ∷ ws) [] = false
begins (w ∷ ws) (c ∷ cs) = nat_beq w c && begins ws cs

remove_from : Text → ℕ → Text → Text
remove_from word skip [] = []
remove_from word (suc skip) (c ∷ cs) = remove_from word skip cs
remove_from word zero (c ∷ cs) =
    let found = remove_from word (length word - 1) cs in
    let rest = remove_from word zero cs in if begins word (c ∷ cs) then found else c ∷ rest

unfoldable pub remove_all : Text → Text → Text
unfolding begins remove_from
remove_all word t = remove_from word zero t

unfoldable pub hex_value : ℕ → Option ℕ
hex_value c =
    if leb 48 c && leb c 57
    then some (c - 48)
    else if leb 97 c && leb c 102
    then some (c - 87)
    else if leb 65 c && leb c 70
    then some (c - 55)
    else none

-- The digits of `int(text, 16)`: an underscore may stand between two digits. `gap` tells that the
-- last character was an underscore, so that a digit has to follow.
hex_digits : ℕ → Bool → Text → Option ℕ
hex_digits n gap [] = if gap then none else some n
hex_digits n gap (c ∷ cs) = elim (hex_value c) [
  | some v ↦ hex_digits (n * 16 + v) false cs
  | none ↦ if nat_beq c 95 && not gap then hex_digits n true cs else none
]

-- After a `0x` prefix one underscore may precede the digits. (With no digits left, `gap` refuses.)
hex_number : Text → Option ℕ
hex_number t =
    if begins (text "0x") t || begins (text "0X") t
    then (let rest = drop 2 t in
        if begins (text "_") rest then hex_digits 0 true (drop 1 rest) else hex_digits 0 true rest)
    else if begins (text "_") t
    then none
    else hex_digits 0 true t

-- `int(text, 16)`, where a negative number is refused by the range check that follows.
hex_int : Text → Option ℕ
hex_int t =
    let s = strip t in
    if begins (text "+") s
    then hex_number (drop 1 s)
    else if begins (text "-") s
    then (elim (hex_number (drop 1 s)) [ some zero ↦ some 0 | some (suc n) ↦ none | none ↦ none ])
    else hex_number s

unfoldable pub hex_char : ℕ → ℕ
hex_char v = if ltb v 10 then v + 48 else v + 87

-- The `count` last hexadecimal digits of a number, the most significant first.
hex_format : ℕ → ℕ → Text
hex_format zero n = []
hex_format (suc count) n = hex_format count (n / 16) ++ hex_char (n % 16) ∷ []

dashed : Text → Text
dashed h =
    take 8 h
    ++ 45 ∷ take 4 (drop 8 h)
    ++ 45 ∷ take 4 (drop 12 h)
    ++ 45 ∷ take 4 (drop 16 h)
    ++ 45 ∷ drop 20 h

is_brace : ℕ → Bool
is_brace c = nat_beq c 123 || nat_beq c 125

uuid_hex : Text → Text
unfolding remove_all strip_left strip_right is_brace
uuid_hex t = remove_all (text "-") (
    strip_right is_brace
      (strip_left is_brace (remove_all (text "uuid:") (remove_all (text "urn:") t))))

unfoldable pub uuid : Text → Option Text
unfolding uuid_hex hex_int hex_number hex_digits hex_value hex_format hex_char dashed strip
uuid t =
    let h = uuid_hex t in
    if nat_beq (length h) 32
    then (elim (hex_int h) [ none ↦ none | some n ↦ some (dashed (hex_format 32 n)) ])
    else none
