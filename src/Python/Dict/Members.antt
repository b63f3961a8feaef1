-- ===== src/Python/Dict/Members.antt =====
-- The keys of a dictionary as a set: membership is `lookup`, and no key stands twice.
use multi_tenant_rag_applica.Prelude.{
  ℕ, ◌≡◌, refl, true, false, not, ◌&&◌, ◌||◌, some, [], ◌∷◌, arith, Eq, ◌==◌, nat_eq, contains,
  nodup, if◌then◌else◌,
}
use multi_tenant_rag_applica.Python.Dict.{Dict, keys, lookup, has_key, insert, delete}
use multi_tenant_rag_applica.Python.Sorting.{insert_by, sort_by, key_le, sorted_items}

module _ {ℓ κ} {K : Type ℓ} {V : Type κ} ⦃e : Eq K⦄ where
  pub contains-keys : (k : K) (d : Dict K V) → contains k (keys d) ≡ has_key k d
  unfolding contains lookup
  contains-keys k [] = refl
  contains-keys k ((j, v) ∷ d) = ground (arith, contains-keys k d)

  pub contains-insert :
      (j k : K) (v : V) (d : Dict K V)
      → contains j (keys (insert k v d)) ≡ (k == j || contains j (keys d))
  unfolding contains insert
  contains-insert j k v [] = refl
  contains-insert j k v ((i, w) ∷ d) =
      ground (arith, contains-insert j k v d, e.beq_iff i k, e.beq_iff i j, e.beq_iff k j)

  pub contains-delete :
      (j k : K) (d : Dict K V)
      → contains j (keys (delete k d)) ≡ (not (k == j) && contains j (keys d))
  unfolding contains delete
  contains-delete j k [] = ground arith
  contains-delete j k ((i, w) ∷ d) =
      ground (arith, contains-delete j k d, e.beq_iff i k, e.beq_iff i j, e.beq_iff k j)

  pub nodup-insert :
      (k : K) (v : V) (d : Dict K V) → nodup (keys d) ≡ true → nodup (keys (insert k v d)) ≡ true
  unfolding nodup insert contains
  nodup-insert k v [] h = refl
  nodup-insert k v ((i, w) ∷ d) h =
      ground (arith, nodup-insert k v d, contains-insert i k v d, e.beq_iff i k, e.beq_iff k i)

  pub nodup-delete :
      (k : K) (d : Dict K V) → nodup (keys d) ≡ true → nodup (keys (delete k d)) ≡ true
  unfolding nodup delete
  nodup-delete k [] h = refl
  nodup-delete k ((i, w) ∷ d) h = ground (arith, nodup-delete k d, contains-delete i k d)

module _ {ℓ} {V : Type ℓ} where
  contains-insert_by :
      (j k : ℕ) (v : V) (d : Dict ℕ V)
      → contains j (keys (insert_by key_le (k, v) d)) ≡ (k == j || contains j (keys d))
  unfolding contains insert_by
  contains-insert_by j k v [] = refl
  contains-insert_by j k v ((i, w) ∷ d) = ground (arith, contains-insert_by j k v d)

  contains-sorted_items :
      (j : ℕ) (d : Dict ℕ V) → contains j (keys (sorted_items d)) ≡ contains j (keys d)
  unfolding contains sort_by
  contains-sorted_items j [] = refl
  contains-sorted_items j ((k, v) ∷ d) =
      ground (arith, contains-insert_by j k v (sorted_items d), contains-sorted_items j d)

  nodup-insert_by :
      (k : ℕ) (v : V) (d : Dict ℕ V)
      → contains k (keys d) ≡ false
      → nodup (keys d) ≡ true
      → nodup (keys (insert_by key_le (k, v) d)) ≡ true
  unfolding nodup contains insert_by
  nodup-insert_by k v [] f n = refl
  nodup-insert_by k v ((i, w) ∷ d) f n =
      ground (arith, nodup-insert_by k v d, contains-insert_by i k v d)

  lookup-insert_by :
      (j k : ℕ) (v : V) (d : Dict ℕ V)
      → contains k (keys d) ≡ false
      → lookup j (insert_by key_le (k, v) d) ≡ (if k == j then some v else lookup j d)
  unfolding contains lookup insert_by
  lookup-insert_by j k v [] f = refl
  lookup-insert_by j k v ((i, w) ∷ d) f = ground (arith, lookup-insert_by j k v d)

  pub nodup-sorted_items :
      (d : Dict ℕ V) → nodup (keys d) ≡ true → nodup (keys (sorted_items d)) ≡ true
  unfolding nodup contains sort_by
  nodup-sorted_items [] h = refl
  nodup-sorted_items ((k, v) ∷ d) h =
      ground (
        arith,
        nodup-sorted_items d,
        contains-sorted_items k d,
        nodup-insert_by k v (sorted_items d),
      )

  -- Sorting changes no entry.
  pub lookup-sorted_items :
      (j : ℕ) (d : Dict ℕ V) → nodup (keys d) ≡ true → lookup j (sorted_items d) ≡ lookup j d
  unfolding nodup lookup sort_by
  lookup-sorted_items j [] h = refl
  lookup-sorted_items j ((k, v) ∷ d) h = ground (
    arith,
    lookup-sorted_items j d,
    contains-sorted_items k d,
    lookup-insert_by j k v (sorted_items d),
  )
