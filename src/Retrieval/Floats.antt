-- ===== src/Retrieval/Floats.antt =====
-- Python's `float`, as far as backend/rag/retrieval.py computes with it: a parameter.
use multi_tenant_rag_applica.Prelude.{◌≡◌, Bool, true, false, ◌⊎◌}
use multi_tenant_rag_applica.Python.Object.{Object}
use multi_tenant_rag_applica.Python.Exec.{Result}

pub record Floats : Type 1 where
  pub Float : Type 0
  pub zero : Float
  pub one : Float
  pub minus_infinity : Float
  pub add : Float → Float → Float
  pub subtract : Float → Float → Float
  pub multiply : Float → Float → Float
  pub divide : Float → Float → Float
  pub square_root : Float → Float
  pub exponential : Float → Float
  pub is_less : Float → Float → Bool
  pub is_equal : Float → Float → Bool
  pub is_finite : Float → Bool
  -- `float(value)`
  pub to_float : Object → Result Float

-- What `float` promises of the comparisons. Only NaN differs from itself, and it is not finite: any
-- two other numbers are ordered.
pub record IsOrdered (f : Floats) : Type 0 where
  pub finite_number : (x : f.Float) → f.is_finite x ≡ true → f.is_equal x x ≡ true
  pub ordered :
      (x y : f.Float)
      → f.is_equal x x ≡ true
      → f.is_equal y y ≡ true
      → (f.is_equal x y ≡ true) ⊎ ((f.is_less x y ≡ true) ⊎ (f.is_less y x ≡ true))
  pub equal_sym : (x y : f.Float) → f.is_equal x y ≡ f.is_equal y x
  pub less_irrefl : (x : f.Float) → f.is_less x x ≡ false
  pub less_trans :
      (x y z : f.Float) → f.is_less x y ≡ true → f.is_less y z ≡ true → f.is_less x z ≡ true
  pub equal_less :
      (x y z : f.Float) → f.is_equal x y ≡ true → f.is_less y z ≡ true → f.is_less x z ≡ true
  pub less_equal :
      (x y z : f.Float) → f.is_less x y ≡ true → f.is_equal y z ≡ true → f.is_less x z ≡ true
