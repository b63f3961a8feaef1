-- ===== src/Python/Exec.antt =====
-- Exceptions as results, and methods that mutate an object and may raise. What a method wrote
-- before it raised stays written, so the state comes back beside the error too.
pub mod Keeps
use mathlib.Core.Path.{◌≡◌, refl, ap}
use multi_tenant_rag_applica.Prelude.{◌⊎◌, inl, inr, List, [], ◌∷◌, Bool, true, false}

-- The classes of exceptions that the modelled code raises. `out_of_fuel` is none: it is the answer
-- of a loop whose model was given too little fuel.
pub data Error : Type 0 where
  type_error value_error key_error runtime_error overflow_error out_of_fuel : Error

-- What `except (TypeError, ValueError)` catches.
abbrev pub is_argument_error : Error → Bool
is_argument_error type_error = true
is_argument_error value_error = true
is_argument_error _ = false

pub data Result {ℓ} (A : Type ℓ) : Type ℓ where
  ok : A → Result A
  err : Error → Result A

module _ {ℓ κ} {A : Type ℓ} {B : Type κ} where
  abbrev pub bind : Result A → (A → Result B) → Result B
  bind (ok a) f = f a
  bind (err e) f = err e

  pub bind-eq-ok :
      (m : Result A) (f : A → Result B) {b : B}
      → bind m f ≡ ok b
      → (a : A) × (m ≡ ok a) × (f a ≡ ok b)
  bind-eq-ok (ok a) f h = (a, refl, h)
  bind-eq-ok (err e) f h = cc

-- `[f(x) for x in xs]`: the first exception ends the comprehension.
unfoldable pub traverse {ℓ κ} :
    {A : Type ℓ} {B : Type κ} → (A → Result B) → List A → Result (List B)
traverse f [] = ok []
traverse f (x ∷ xs) = bind (f x) λ y. bind (traverse f xs) λ ys. ok (y ∷ ys)

-- `if not test: raise error`
abbrev pub guard : Bool → Error → Result (Unit {0})
guard true e = ok tt
guard false e = err e

-- A method of an object whose fields are `S`.
abbrev pub Exec {ℓ κ} : Type ℓ → Type κ → Type (ℓ ⊔ κ)
Exec S A = S → Result A × S

module _ {ℓ κ} {S : Type ℓ} {A : Type κ} where
  unfoldable pub pure : A → Exec S A
  pure a s = (ok a, s)

  unfoldable pub lift : Result A → Exec S A
  lift r s = (r, s)

  unfoldable pub gets : (S → A) → Exec S A
  gets f s = (ok (f s), s)

unfoldable pub modify {ℓ} : {S : Type ℓ} → (S → S) → Exec S (Unit {0})
modify f s = (ok tt, f s)

module _ {ℓ κ μ} {S : Type ℓ} {A : Type κ} {B : Type μ} where
  abbrev pub continue : Result A → (A → Exec S B) → Exec S B
  continue (ok a) f s = f a s
  continue (err e) f s = (err e, s)

  -- Opening this opens `pure`, `lift`, `gets` and `modify` too.
  infixl 10 ◌>>=◌ ◌>>◌
  unfoldable pub ◌>>=◌ : Exec S A → (A → Exec S B) → Exec S B
  unfolding pure lift gets modify
  ◌>>=◌ m f s = let (r, s') = m s in continue r f s'

  abbrev pub ◌>>◌ : Exec S A → Exec S B → Exec S B
  m >> n = m >>= λ _. n

-- `for x in xs: f(x)`
unfoldable pub for_each {ℓ κ} :
    {S : Type ℓ} {A : Type κ} → (A → Exec S (Unit {0})) → List A → Exec S (Unit {0})
for_each f [] = pure tt
for_each f (x ∷ xs) = f x >> for_each f xs

pub Result-cases {ℓ} :
    {A : Type ℓ} (r : Result A) → ((a : A) × (r ≡ ok a)) ⊎ ((e : Error) × (r ≡ err e))
Result-cases (ok a) = inl (a, refl)
Result-cases (err e) = inr (e, refl)

pub ok_injective {ℓ} : {A : Type ℓ} {a b : A} → ok a ≡ ok b → a ≡ b
ok_injective {a = a} e = ap (value_or a) e
  where
    value_or : {A : Type ℓ} → A → Result A → A
    value_or x (ok y) = y
    value_or x (err z) = x
