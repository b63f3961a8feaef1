-- ===== src/Config/Base32/Stripped.antt =====
-- `rstrip("=")` takes the padding off the encoding in base 32, and nothing else.
use mathlib.Core.List.{append_assoc}
use multi_tenant_rag_applica.Prelude.{
  ℕ, zero, suc, ◌/◌, ◌%◌, ◌≡◌, refl, sym, Bool, false, List, [], ◌∷◌, ◌++◌, arith, All, All-append,
  nat_beq,
}
use multi_tenant_rag_applica.Python.Text.{Text, strip_right}
use multi_tenant_rag_applica.Config.Base32.{b32_char, b32_digits, quintet, b32encode}
use multi_tenant_rag_applica.Config.Base32.Injective.{raw}

strip_right-All : (p : ℕ → Bool) (xs : Text) → All (λ c. p c ≡ false) xs → strip_right p xs ≡ xs
unfolding strip_right
strip_right-All p [] h = refl
strip_right-All p (x ∷ xs) h = rw (strip_right-All p xs h.1, h.0)

strip_right-append :
    (p : ℕ → Bool) (xs ys : Text)
    → strip_right p ys ≡ []
    → strip_right p (xs ++ ys) ≡ strip_right p xs
unfolding strip_right
strip_right-append p [] ys h = h
strip_right-append p (x ∷ xs) ys h = rw (strip_right-append p xs ys h)

-- Every letter of the encoding is a letter of the alphabet.
abbrev pub IsLetter : ℕ → Type 0
IsLetter c = (nat_beq 61 c ≡ false) × (nat_beq 95 c ≡ false)

digits-letters : (count n : ℕ) → All IsLetter (b32_digits count n)
unfolding b32_digits b32_char
digits-letters zero n = tt
digits-letters (suc count) n =
    All-append IsLetter (b32_digits count (n / 32)) (b32_char (n % 32) ∷ [])
      (digits-letters count (n / 32)) ((ground arith, ground arith), tt)

pub raw-letters : (bs : List ℕ) → All IsLetter (raw bs)
unfolding raw
raw-letters [] = tt
raw-letters (a ∷ []) = digits-letters 2 _
raw-letters (a ∷ b ∷ []) = digits-letters 4 _
raw-letters (a ∷ b ∷ c ∷ []) = digits-letters 5 _
raw-letters (a ∷ b ∷ c ∷ d ∷ []) = digits-letters 7 _
raw-letters (a ∷ b ∷ c ∷ d ∷ e ∷ rest) =
    All-append IsLetter (b32_digits 8 (quintet a b c d e)) (raw rest) (digits-letters 8 _)
      (raw-letters rest)

-- The padding is what the encoding adds to `raw`.
pad : List ℕ → Text
pad [] = []
pad (a ∷ []) = 61 ∷ 61 ∷ 61 ∷ 61 ∷ 61 ∷ 61 ∷ []
pad (a ∷ b ∷ []) = 61 ∷ 61 ∷ 61 ∷ 61 ∷ []
pad (a ∷ b ∷ c ∷ []) = 61 ∷ 61 ∷ 61 ∷ []
pad (a ∷ b ∷ c ∷ d ∷ []) = 61 ∷ []
pad (a ∷ b ∷ c ∷ d ∷ e ∷ rest) = pad rest

b32encode-raw : (bs : List ℕ) → b32encode bs ≡ raw bs ++ pad bs
unfolding b32encode raw pad b32_digits
b32encode-raw [] = refl
b32encode-raw (a ∷ []) = refl
b32encode-raw (a ∷ b ∷ []) = refl
b32encode-raw (a ∷ b ∷ c ∷ []) = refl
b32encode-raw (a ∷ b ∷ c ∷ d ∷ []) = refl
b32encode-raw (a ∷ b ∷ c ∷ d ∷ e ∷ rest) =
    rw (b32encode-raw rest)
      (sym (append_assoc (b32_digits 8 (quintet a b c d e)) (raw rest) (pad rest)))

strip-pad : (bs : List ℕ) → strip_right (nat_beq 61) (pad bs) ≡ []
unfolding pad strip_right
strip-pad [] = refl
strip-pad (a ∷ []) = refl
strip-pad (a ∷ b ∷ []) = refl
strip-pad (a ∷ b ∷ c ∷ []) = refl
strip-pad (a ∷ b ∷ c ∷ d ∷ []) = refl
strip-pad (a ∷ b ∷ c ∷ d ∷ e ∷ rest) = strip-pad rest

not_padding : (xs : Text) → All IsLetter xs → All (λ c. nat_beq 61 c ≡ false) xs
not_padding [] h = tt
not_padding (x ∷ xs) h = (h.0.0, not_padding xs h.1)

pub stripped-raw : (bs : List ℕ) → strip_right (nat_beq 61) (b32encode bs) ≡ raw bs
stripped-raw bs =
    rw (b32encode-raw bs, strip_right-append (nat_beq 61) (raw bs) (pad bs) (strip-pad bs))
      (strip_right-All (nat_beq 61) (raw bs) (not_padding (raw bs) (raw-letters bs)))
