-- ===== src/Prelude/Subkeys.antt =====
-- A list of keys that is within another one: what is left when some are dropped or reordered.
use mathlib.Core.Path.{◌≡◌, refl}
use mathlib.Core.Bool.{true}
use mathlib.Core.List.{List, [], ◌∷◌, map}
use Prim.Native.Nat.{ℕ, zero, suc}
use native.Mathlib.Omega.{arith}
use multi_tenant_rag_applica.Prelude.Lists.{take}
use multi_tenant_rag_applica.Prelude.Equality.{Eq, contains, nodup}

module _ {ℓ} {K : Type ℓ} ⦃e : Eq K⦄ where
  -- The keys are among the others, and distinct if those are.
  pub record Within (ys xs : List K) : Type ℓ where
    pub included : (k : K) → contains k ys ≡ true → contains k xs ≡ true
    pub distinct : nodup xs ≡ true → nodup ys ≡ true

  pub Within-refl : (xs : List K) → Within xs xs
  Within-refl xs = record { included = λ k h. h; distinct = λ h. h }

  pub Within-trans : (zs ys xs : List K) → Within zs ys → Within ys xs → Within zs xs
  Within-trans zs ys xs v w = record {
    included = λ k h. w.included k (v.included k h);
    distinct = λ h. v.distinct (w.distinct h);
  }

  pub Within-nil : (xs : List K) → Within [] xs
  unfolding nodup contains
  Within-nil xs = record { included = λ k h. absurd (ground arith); distinct = λ h. refl }

  pub Within-keep : (x : K) (ys xs : List K) → Within ys xs → Within (x ∷ ys) (x ∷ xs)
  unfolding nodup contains
  Within-keep x ys xs w = record {
    included = λ k h. ground (arith, w.included k);
    distinct = λ h. ground (arith, w.distinct, w.included x);
  }

  pub Within-skip : (x : K) (ys xs : List K) → Within ys xs → Within ys (x ∷ xs)
  unfolding nodup contains
  Within-skip x ys xs w = record {
    included = λ k h. ground (arith, w.included k);
    distinct = λ h. ground (arith, w.distinct);
  }

  pub Within-take {κ} :
      {A : Type κ} (g : A → K) (n : ℕ) (xs : List A) → Within (map g (take n xs)) (map g xs)
  Within-take g zero xs = Within-nil (map g xs)
  Within-take g (suc n) [] = Within-refl []
  Within-take g (suc n) (x ∷ xs) =
      Within-keep (g x) (map g (take n xs)) (map g xs) (Within-take g n xs)
