-- ===== src/Python/Object.antt =====
-- Values whose type the program tests at run time (`value: object`, `isinstance`).
use multi_tenant_rag_applica.Prelude.{ℕ, List, [], ◌∷◌, Bool}
use multi_tenant_rag_applica.Python.Text.{Text}

pub data ℤ : Type 0 where
  pos : ℕ → ℤ
  negsuc : ℕ → ℤ

-- `other` stands for a value of any class that the program does not name.
mutual
  pub data Object : Type 0 where
    none other : Object
    bool : Bool → Object
    int : ℤ → Object
    str : Text → Object
    list : Objects → Object
    tuple : Objects → Object
    mapping : Entries → Object

  pub data Objects : Type 0 where
    nil : Objects
    cons : Object → Objects → Objects

  -- The items of a mapping, in its order.
  pub data Entries : Type 0 where
    end : Entries
    entry : Object → Object → Entries → Entries

unfoldable pub elements : Objects → List Object
elements nil = []
elements (cons x xs) = x ∷ elements xs

unfoldable pub items : Entries → List (Object × Object)
items end = []
items (entry k v es) = (k, v) ∷ items es

-- A list of texts as a value, and a dictionary from numbers to values.
abbrev pub texts : List Text → Objects
texts [] = nil
texts (t ∷ ts) = cons (str t) (texts ts)
