-- ===== src/Config/Base32/Injective.antt =====
-- The encoding of bytes in base 32, without its padding, loses nothing.
use multi_tenant_rag_applica.Prelude.{
  ℕ, zero, suc, ◌+◌, ◌*◌, ◌/◌, ◌%◌, ◌^◌, ◌<◌, ◌≡◌, ◌≢◌, refl, ap, List, [], ◌∷◌, ◌++◌, arith, All,
  length, length-append,
}
use multi_tenant_rag_applica.Python.Text.{Text}
use multi_tenant_rag_applica.Config.Base32.{b32_char, b32_digits, quintet}
use native.Mathlib.Nat.{pow-suc}

-- Digits of base 32 are letters of the alphabet, neither `=` nor `_`.
b32_char-ne : (v : ℕ) → v < 32 → (b32_char v ≢ 61) × (b32_char v ≢ 95)
unfolding b32_char
b32_char-ne v h = (λ e. ground arith, λ e. ground arith)

b32_char_injective : (v w : ℕ) → v < 32 → w < 32 → b32_char v ≡ b32_char w → v ≡ w
unfolding b32_char
b32_char_injective v w h k e = ground arith

-- The first digits of `count` decide the number up to the digits left out.
snoc_injective : (xs ys : List ℕ) (a b : ℕ) → xs ++ a ∷ [] ≡ ys ++ b ∷ [] → (xs ≡ ys) × (a ≡ b)
snoc_injective [] [] a b e = (refl, ground arith)
snoc_injective [] (y ∷ ys) a b e = absurd (omega (arith, ap length e, length-append ys (b ∷ [])))
snoc_injective (x ∷ xs) [] a b e = absurd (omega (arith, ap length e, length-append xs (a ∷ [])))
snoc_injective (x ∷ xs) (y ∷ ys) a b e =
    let (p, q) = snoc_injective xs ys a b (ground arith) in (cc, q)

b32_digits_injective :
    (count n m : ℕ)
    → n < 32 ^ count
    → m < 32 ^ count
    → b32_digits count n ≡ b32_digits count m
    → n ≡ m
unfolding b32_digits
b32_digits_injective zero n m h k e = omega arith
b32_digits_injective (suc count) n m h k e =
    let (p, q) = snoc_injective (b32_digits count (n / 32)) (b32_digits count (m / 32)) _ _ e in
    let low : n % 32 ≡ m % 32 =
      b32_char_injective (n % 32) (m % 32) (omega arith) (omega arith) q in
    let high : n / 32 ≡ m / 32 =
      b32_digits_injective count (n / 32) (m / 32) (omega (arith, pow-suc 32 count))
        (omega (arith, pow-suc 32 count)) p in
    omega arith

-- What `rstrip("=")` leaves of the encoding.
unfoldable pub raw : List ℕ → Text
raw [] = []
raw (a ∷ []) = b32_digits 2 (quintet a 0 0 0 0 / 32 / 32 / 32 / 32 / 32 / 32)
raw (a ∷ b ∷ []) = b32_digits 4 (quintet a b 0 0 0 / 32 / 32 / 32 / 32)
raw (a ∷ b ∷ c ∷ []) = b32_digits 5 (quintet a b c 0 0 / 32 / 32 / 32)
raw (a ∷ b ∷ c ∷ d ∷ []) = b32_digits 7 (quintet a b c d 0 / 32)
raw (a ∷ b ∷ c ∷ d ∷ e ∷ rest) = b32_digits 8 (quintet a b c d e) ++ raw rest

abbrev pub IsByte : ℕ → Type 0
IsByte b = b < 256

length-digits : (count n : ℕ) → length (b32_digits count n) ≡ count
unfolding b32_digits
length-digits zero n = refl
length-digits (suc count) n = omega (
  arith,
  length-append (b32_digits count (n / 32)) (b32_char (n % 32) ∷ []),
  length-digits count (n / 32),
)

append_injective :
    (xs ys s t : List ℕ) → length xs ≡ length ys → xs ++ s ≡ ys ++ t → (xs ≡ ys) × (s ≡ t)
append_injective [] [] s t l e = (refl, e)
append_injective [] (y ∷ ys) s t l e = absurd (omega arith)
append_injective (x ∷ xs) [] s t l e = absurd (omega arith)
append_injective (x ∷ xs) (y ∷ ys) s t l e =
    let (p, q) = append_injective xs ys s t (omega arith) (ground arith) in (cc, q)

-- The five bytes of a group are the digits of its number in base 256.
quintet_injective :
    (a b c d e : ℕ) (a' b' c' d' e' : ℕ)
    → All IsByte (a ∷ b ∷ c ∷ d ∷ e ∷ [])
    → All IsByte (a' ∷ b' ∷ c' ∷ d' ∷ e' ∷ [])
    → quintet a b c d e ≡ quintet a' b' c' d' e'
    → (a ≡ a') × (b ≡ b') × (c ≡ c') × (d ≡ d') × (e ≡ e')
unfolding quintet
quintet_injective a b c d e a' b' c' d' e' h k q =
    (omega arith, omega arith, omega arith, omega arith, omega arith)

one_byte : (a x : ℕ) → a < 256 → x < 256 → raw (a ∷ []) ≡ raw (x ∷ []) → a ≡ x
unfolding raw quintet
one_byte a x h k e = omega (arith, b32_digits_injective 2 _ _ (omega arith) (omega arith) e)

two_bytes :
    (a b x y : ℕ)
    → a < 256
    → b < 256
    → x < 256
    → y < 256
    → raw (a ∷ b ∷ []) ≡ raw (x ∷ y ∷ [])
    → (a ≡ x) × (b ≡ y)
unfolding raw quintet
two_bytes a b x y _h _k _l _m e =
    let q = b32_digits_injective 4 _ _ (omega arith) (omega arith) e in (omega arith, omega arith)

three_bytes :
    (a b c x y z : ℕ)
    → All IsByte (a ∷ b ∷ c ∷ [])
    → All IsByte (x ∷ y ∷ z ∷ [])
    → raw (a ∷ b ∷ c ∷ []) ≡ raw (x ∷ y ∷ z ∷ [])
    → (a ≡ x) × (b ≡ y) × (c ≡ z)
unfolding raw quintet
three_bytes a b c x y z h k e =
    let q = b32_digits_injective 5 _ _ (omega arith) (omega arith) e in
    (omega arith, omega arith, omega arith)

four_bytes :
    (a b c d x y z w : ℕ)
    → All IsByte (a ∷ b ∷ c ∷ d ∷ [])
    → All IsByte (x ∷ y ∷ z ∷ w ∷ [])
    → raw (a ∷ b ∷ c ∷ d ∷ []) ≡ raw (x ∷ y ∷ z ∷ w ∷ [])
    → (a ≡ x) × (b ≡ y) × (c ≡ z) × (d ≡ w)
unfolding raw quintet
four_bytes a b c d x y z w h k e =
    let q = b32_digits_injective 7 _ _ (omega arith) (omega arith) e in
    (omega arith, omega arith, omega arith, omega arith)

length-raw : (bs : List ℕ) → length (raw bs) ≡ (8 * length bs + 4) / 5
unfolding raw
length-raw [] = omega arith
length-raw (a ∷ []) = omega (arith, length-digits 2)
length-raw (a ∷ b ∷ []) = omega (arith, length-digits 4)
length-raw (a ∷ b ∷ c ∷ []) = omega (arith, length-digits 5)
length-raw (a ∷ b ∷ c ∷ d ∷ []) = omega (arith, length-digits 7)
length-raw (a ∷ b ∷ c ∷ d ∷ e ∷ rest) = omega (
  arith,
  length-append (b32_digits 8 (quintet a b c d e)) (raw rest),
  length-digits 8 (quintet a b c d e),
  length-raw rest,
)

same_length : (bs cs : List ℕ) → raw bs ≡ raw cs → length bs ≡ length cs
same_length bs cs e = omega (arith, ap length e, length-raw bs, length-raw cs)

group_injective :
    (a b c d e x y z w v : ℕ) (bs cs : List ℕ)
    → All IsByte (a ∷ b ∷ c ∷ d ∷ e ∷ bs)
    → All IsByte (x ∷ y ∷ z ∷ w ∷ v ∷ cs)
    → raw (a ∷ b ∷ c ∷ d ∷ e ∷ bs) ≡ raw (x ∷ y ∷ z ∷ w ∷ v ∷ cs)
    → ((a ≡ x) × (b ≡ y) × (c ≡ z) × (d ≡ w) × (e ≡ v)) × (raw bs ≡ raw cs)
unfolding raw
group_injective a b c d e x y z w v bs cs h k q =
    let (p, r) =
      append_injective (b32_digits 8 (quintet a b c d e)) (b32_digits 8 (quintet x y z w v))
        (raw bs) (raw cs) (omega (arith, length-digits 8)) q in
    (
      quintet_injective a b c d e x y z w v (omega arith) (omega arith) (
          b32_digits_injective 8 _ _ (unfold quintet in omega arith) (unfold quintet in omega arith)
            p),
      r,
    )

aligned :
    (bs cs : List ℕ)
    → length bs ≡ length cs
    → All IsByte bs
    → All IsByte cs
    → raw bs ≡ raw cs
    → bs ≡ cs
unfolding quintet
aligned [] [] l h k e = refl
aligned (a ∷ []) (x ∷ []) l h k e = cc (one_byte a x h.0 k.0 e)
aligned (a ∷ b ∷ []) (x ∷ y ∷ []) l h k e =
    let r = two_bytes a b x y h.0 h.1.0 k.0 k.1.0 e in cc (r.0, r.1)
aligned (a ∷ b ∷ c ∷ []) (x ∷ y ∷ z ∷ []) l h k e =
    let r = three_bytes a b c x y z h k e in cc (r.0, r.1, r.2)
aligned (a ∷ b ∷ c ∷ d ∷ []) (x ∷ y ∷ z ∷ w ∷ []) l h k e =
    let r = four_bytes a b c d x y z w h k e in cc (r.0, r.1, r.2, r.3)
aligned (a ∷ b ∷ c ∷ d ∷ e ∷ bs) (x ∷ y ∷ z ∷ w ∷ v ∷ cs) l h k q =
    let (p, r) = group_injective a b c d e x y z w v bs cs h k q in
    let i = aligned bs cs (omega arith) h.1.1.1.1.1 k.1.1.1.1.1 r in cc (p.0, p.1, p.2, p.3, p.4, i)
aligned bs cs l h k e = absurd (omega arith)

pub raw_injective : (bs cs : List ℕ) → All IsByte bs → All IsByte cs → raw bs ≡ raw cs → bs ≡ cs
raw_injective bs cs h k e = aligned bs cs (same_length bs cs e) h k e
