-- ===== src/Python/Exec/Keeps.antt =====
-- Invariants of methods, one rule for each way to build one. An invariant is kept whether the
-- method returns or raises.
use multi_tenant_rag_applica.Prelude.{◌≡◌, refl}
use multi_tenant_rag_applica.Python.Exec.{Result, ok, err, Exec, pure, lift, gets, ◌>>=◌}

pub record Keeps {ℓ κ μ} {S : Type ℓ} {A : Type κ} (P : S → Type μ) (m : Exec S A)
    : Type (ℓ ⊔ μ) where
  pub at : (s : S) → P s → P (m s).1

module _ {ℓ κ μ} {S : Type ℓ} {A : Type κ} {P : S → Type μ} where
  pub Keeps-gets : (f : S → A) → Keeps P (gets f)
  unfolding gets
  Keeps-gets f = record { at = λ state kept. kept }

  pub Keeps-lift : (r : Result A) → Keeps P (lift r)
  unfolding lift
  Keeps-lift r = record { at = λ s h. h }

  pub Keeps-pure : (result : A) → Keeps P (pure result)
  unfolding pure
  Keeps-pure result = record { at = λ state kept. kept }

module _ {ℓ κ μ ν} {S : Type ℓ} {A : Type κ} {B : Type μ} {P : S → Type ν} where
  -- The rest of the method may use that `r` did not raise.
  pub Keeps-bind-lift :
      (result : Result A) (rest : A → Exec S B)
      → ((a : A) → result ≡ ok a → Keeps P (rest a))
      → Keeps P (lift result >>= rest)
  unfolding ◌>>=◌
  Keeps-bind-lift (ok a) rest kept = record { at = λ s h. (kept a refl).at s h }
  Keeps-bind-lift (err e) rest kept = record { at = λ s h. h }

  pub Keeps-bind :
      (first : Exec S A) (next : A → Exec S B)
      → Keeps P first
      → ((a : A) → Keeps P (next a))
      → Keeps P (first >>= next)
  unfolding ◌>>=◌
  Keeps-bind first next kept then_kept = record {
    at = λ s h.
        let (r, s') = first s in (Keeps-bind-lift r next (λ a _. then_kept a)).at s' (kept.at s h);
  }

pub ruleset keeps_rules = (Keeps-pure, Keeps-lift, Keeps-gets, Keeps-bind)
