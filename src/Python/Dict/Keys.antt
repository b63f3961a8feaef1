-- ===== src/Python/Dict/Keys.antt =====
-- The keys of a dictionary that is built by insertion are distinct.
use multi_tenant_rag_applica.Prelude.{◌≢◌, List, [], ◌∷◌, All, arith, Eq}
use multi_tenant_rag_applica.Python.Dict.{Dict, keys, insert, delete}

abbrev pub Distinct {ℓ} : {K : Type ℓ} → List K → Type ℓ
Distinct [] = Unit
Distinct (k ∷ ks) = All (λ j. j ≢ k) ks × Distinct ks

module _ {ℓ κ} {K : Type ℓ} {V : Type κ} ⦃e : Eq K⦄ where
  pub All-insert {μ} :
      (P : K → Type μ) (k : K) (v : V) (d : Dict K V)
      → P k
      → All P (keys d)
      → All P (keys (insert k v d))
  unfolding insert
  All-insert P k v [] p h = (p, tt)
  All-insert P k v ((j, w) ∷ d) p h = ground (arith, All-insert P k v d)

  pub All-delete {μ} :
      (P : K → Type μ) (k : K) (d : Dict K V) → All P (keys d) → All P (keys (delete k d))
  unfolding delete
  All-delete P k [] h = tt
  All-delete P k ((j, w) ∷ d) h = ground (arith, All-delete P k d h.1)

  pub Distinct-insert :
      (k : K) (v : V) (d : Dict K V) → Distinct (keys d) → Distinct (keys (insert k v d))
  unfolding insert
  Distinct-insert k v [] h = (tt, tt)
  Distinct-insert k v ((j, w) ∷ d) h =
      ground (arith, e.beq_iff j k, Distinct-insert k v d h.1, All-insert (λ i. i ≢ j) k v d)
