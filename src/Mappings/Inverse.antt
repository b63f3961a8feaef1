-- ===== src/Mappings/Inverse.antt =====
-- Children listed under their parents, with the inverse index from a child to its parent: what
-- `ParagraphMap` and `SessionMap` of backend/mappings have in common.
use multi_tenant_rag_applica.Prelude.{
  ◌≡◌, refl, Bool, true, false, not, ◌&&◌, ◌||◌, none, some, List, [], ◌∷◌, ◌++◌, all, arith, ◌==◌,
  Eq, contains, nodup, if◌then◌else◌, Option-cases, inl, inr,
}
use multi_tenant_rag_applica.Python.Dict.{
  Dict, lookup, insert, delete, lookup-insert, lookup-delete,
}

module _ {κ} {C : Type κ} ⦃d : Eq C⦄ where
  pub all-contains :
      (q : C → Bool) (ids : List C) (c : C) → all q ids ≡ true → contains c ids ≡ true → q c ≡ true
  unfolding contains
  all-contains q [] c h i = cc
  all-contains q (x ∷ ids) c h i = ground (arith, d.beq_iff x c, all-contains q ids c)

  pub contains-append :
      (c x : C) (ids : List C) → contains c (ids ++ x ∷ []) ≡ (contains c ids || x == c)
  unfolding contains
  contains-append c x [] = ground arith
  contains-append c x (y ∷ ids) = ground (arith, contains-append c x ids)

  pub nodup-append :
      (x : C) (ids : List C)
      → nodup ids ≡ true
      → contains x ids ≡ false
      → nodup (ids ++ x ∷ []) ≡ true
  unfolding nodup contains
  nodup-append x [] n f = refl
  nodup-append x (y ∷ ids) n f =
      ground (arith, nodup-append x ids, contains-append y x ids, d.beq_iff x y, d.beq_iff y x)

module _ {ℓ κ} {K : Type ℓ} {C : Type κ} ⦃e : Eq K⦄ ⦃d : Eq C⦄ where
  -- The owners after `del` of the children that are not kept.
  unfoldable pub drop_all : List C → List C → Dict C K → Dict C K
  drop_all kept [] o = o
  drop_all kept (c ∷ cs) o = drop_all kept cs (if contains c kept then o else delete c o)

  -- The owners after each child is given to `key`.
  unfoldable pub claim_all : K → List C → Dict C K → Dict C K
  claim_all key [] o = o
  claim_all key (c ∷ cs) o = claim_all key cs (insert c key o)

  pub lookup-drop_all :
      (kept ids : List C) (c : C) (o : Dict C K)
      → lookup c (drop_all kept ids o)
        ≡ (if contains c ids && not (contains c kept) then none else lookup c o)
  unfolding drop_all contains
  lookup-drop_all kept [] c o = refl
  lookup-drop_all kept (x ∷ ids) c o = ground (
    arith,
    lookup-drop_all kept ids c (if contains x kept then o else delete x o),
    lookup-delete x c o,
    d.beq_iff x c,
  )

  pub lookup-claim_all :
      (key : K) (ids : List C) (c : C) (o : Dict C K)
      → lookup c (claim_all key ids o) ≡ (if contains c ids then some key else lookup c o)
  unfolding claim_all contains
  lookup-claim_all key [] c o = refl
  lookup-claim_all key (x ∷ ids) c o =
      ground (arith, lookup-claim_all key ids c (insert x key o), lookup-insert x c key o)

  -- The index names `key` as the owner of the child.
  abbrev pub owns : Dict C K → K → C → Bool
  owns o key c = elim (lookup c o) [ none ↦ false | some owner ↦ owner == key ]

  -- The list of `key` holds the child.
  abbrev pub holds : Dict K (List C) → K → C → Bool
  holds p key c = elim (lookup key p) [ none ↦ false | some ids ↦ contains c ids ]

  -- The child belongs to nobody, or to `key`.
  abbrev pub is_free : Dict C K → K → C → Bool
  is_free o key c = elim (lookup c o) [ none ↦ true | some owner ↦ owner == key ]

  -- The index and the lists agree, and no list holds a child twice.
  pub record IsInverse (p : Dict K (List C)) (o : Dict C K) : Type (ℓ ⊔ κ) where
    pub index : (key : K) (c : C) → owns o key c ≡ holds p key c
    pub distinct : (key : K) (ids : List C) → lookup key p ≡ some ids → nodup ids ≡ true

  module _ (p : Dict K (List C)) (o : Dict C K) (inv : IsInverse p o) (key : K) where
    popped-index :
        (ids : List C)
        → lookup key p ≡ some ids
        → (k : K) (c : C) → owns (drop_all [] ids o) k c ≡ holds (delete key p) k c
    unfolding contains
    popped-index ids at k c = elim (Option-cases (lookup c o)) [
      | inl n ↦
          ground (
            arith,
            inv.index k c,
            lookup-drop_all [] ids c o,
            lookup-delete key k p,
            e.beq_iff key k,
          )
      | inr (x, s) ↦ ground (
        arith,
        inv.index k c,
        inv.index key c,
        lookup-drop_all [] ids c o,
        lookup-delete key k p,
        e.beq_iff key k,
        e.beq_iff x k,
        e.beq_iff x key,
      )
    ]

    pub popped-IsInverse :
        (ids : List C) → lookup key p ≡ some ids → IsInverse (delete key p) (drop_all [] ids o)
    popped-IsInverse ids at = record {
      index = popped-index ids at;
      distinct = λ k js f. ground (arith, lookup-delete key k p, inv.distinct k js);
    }

    abbrev pub children : List C
    children = elim (lookup key p) [ none ↦ [] | some ids ↦ ids ]

    abbrev pub claimed : List C → Dict C K
    claimed ids = claim_all key ids (drop_all ids children o)

    claimed-index :
        (ids : List C)
        → all (is_free o key) ids ≡ true
        → (k : K) (c : C) → owns (claimed ids) k c ≡ holds (insert key ids p) k c
    unfolding contains
    claimed-index ids free k c = elim (Option-cases (lookup c o)) [
      | inl n ↦ ground (
        arith,
        inv.index k c,
        inv.index key c,
        lookup-claim_all key ids c (drop_all ids children o),
        lookup-drop_all ids children c o,
        lookup-insert key k ids p,
        e.beq_iff key k,
      )
      | inr (x, s) ↦ ground (
        arith,
        inv.index k c,
        inv.index key c,
        lookup-claim_all key ids c (drop_all ids children o),
        lookup-drop_all ids children c o,
        lookup-insert key k ids p,
        all-contains (is_free o key) ids c free,
        e.beq_iff key k,
        e.beq_iff x k,
        e.beq_iff x key,
      )
    ]

    pub claimed-IsInverse :
        (ids : List C)
        → nodup ids ≡ true
        → all (is_free o key) ids ≡ true
        → IsInverse (insert key ids p) (claimed ids)
    claimed-IsInverse ids n free = record {
      index = claimed-index ids free;
      distinct = λ k js f. ground (arith, lookup-insert key k ids p, inv.distinct k js);
    }

    -- A child that belongs to nobody is added behind the others of `key`.
    append-index :
        (ids : List C) (x : C)
        → lookup key p ≡ some ids
        → lookup x o ≡ none
        → (k : K) (c : C) → owns (insert x key o) k c ≡ holds (insert key (ids ++ x ∷ []) p) k c
    append-index ids x at free k c = ground (
      arith,
      inv.index k c,
      inv.index key c,
      lookup-insert x c key o,
      lookup-insert key k (ids ++ x ∷ []) p,
      contains-append c x ids,
      e.beq_iff key k,
      d.beq_iff x c,
    )

    pub append-IsInverse :
        (ids : List C) (x : C)
        → lookup key p ≡ some ids
        → lookup x o ≡ none
        → IsInverse (insert key (ids ++ x ∷ []) p) (insert x key o)
    append-IsInverse ids x at free = record {
      index = append-index ids x at free;
      distinct = λ k js f. ground (
        arith,
        lookup-insert key k (ids ++ x ∷ []) p,
        inv.distinct k js,
        inv.distinct key ids,
        inv.index key x,
        nodup-append x ids,
      );
    }

    -- A parent without children is added.
    pub fresh-IsInverse : lookup key p ≡ none → IsInverse (insert key [] p) o
    unfolding contains nodup
    fresh-IsInverse free = record {
      index = λ k c. ground (arith, inv.index k c, lookup-insert key k [] p, e.beq_iff key k);
      distinct = λ k js f. ground (arith, lookup-insert key k [] p, inv.distinct k js);
    }

  pub empty-IsInverse : IsInverse [] []
  unfolding lookup
  empty-IsInverse = record { index = λ k c. refl; distinct = λ k ids f. cc }
