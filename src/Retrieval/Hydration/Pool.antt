-- ===== src/Retrieval/Hydration/Pool.antt =====
-- The pool that `_hydrate_mmr_head` of backend/rag/retrieval.py returns, and its flag.
use multi_tenant_rag_applica.Prelude.{
  ℕ, ◌≡◌, refl, ap, ◌∙◌, Bool-cases, Bool, true, false, Option, none, some, List, [], ◌∷◌, arith,
  All, length, nat_beq, nat_eq, list_eq, Within, Within-nil, Within-keep, Within-skip, Option-cases,
  inl, inr,
}
use mathlib.Core.Path.{subst}
use multi_tenant_rag_applica.Python.Exec.{
  Result, is_argument_error, ok, err, type_error, bind, guard, bind-eq-ok, ok_injective,
  Result-cases, traverse,
}
use multi_tenant_rag_applica.Config.{CollectionType}
use multi_tenant_rag_applica.Retrieval.Floats.{Floats}
use multi_tenant_rag_applica.Retrieval.Ranking.{Ranked}
use multi_tenant_rag_applica.Retrieval.Ranking.Scores.{ranked_ids}
use multi_tenant_rag_applica.Retrieval.Diversity.Selected.{IsUsable}
use multi_tenant_rag_applica.Retrieval.Hydration.{
  HydrationRequest, HydratedResult, RawHydrated, malformed, hydrated, hydration_request,
  diversity_vector, hydrated_text, with_vector, hydrated_candidate, with_kept, hydrated_pool,
  hydrate_mmr_head,
}
use multi_tenant_rag_applica.Retrieval.Hydration.Kept.{
  IsTextual, IsPresentable, requests-IsTextual, hydrated_text-IsRequired, diversity_vector-IsVector,
}

module _ (f : Floats) (dimension : ℕ) where
  -- What is kept of a candidate.
  record IsKept (c kept : Ranked f.Float) (has_vector : Bool) : Type 0 where
    pub same_id : kept.object_id ≡ c.object_id
    pub presentable : IsPresentable f kept
    pub usable : has_vector ≡ true → IsUsable f dimension kept

  with_vector-IsKept :
      (h : HydratedResult) (c kept : Ranked f.Float) (b : Bool)
      → IsPresentable f c
      → with_vector f dimension h c ≡ ok (kept, b)
      → IsKept c kept b
  unfolding with_vector
  with_vector-IsKept h c kept b p g =
      elim (Result-cases (diversity_vector f dimension h.diversity_vector)) [
        | inl (v, e) ↦
            let c' : Ranked f.Float = record c { diversity_vector = some v } in
            let got : Path (Result (Ranked f.Float × Bool)) (ok (c', true)) (ok (kept, b)) =
              ground (arith, e, g) in
            subst (λ (k : Ranked f.Float × Bool). IsKept c k.0 k.1) (ok_injective got)
              (record {
                same_id = refl;
                presentable = p;
                usable =
                    λ t. (v, refl, diversity_vector-IsVector f dimension h.diversity_vector v e);
              })
        | inr (x, e) ↦ elim (Bool-cases (is_argument_error x)) [
          | inl d ↦
              let got : Path (Result (Ranked f.Float × Bool)) (ok (c, false)) (ok (kept, b)) =
                ground (arith, e, d, g) in
              subst (λ (k : Ranked f.Float × Bool). IsKept c k.0 k.1) (ok_injective got)
                (record {
                  same_id = refl;
                  presentable = p;
                  usable = λ (t : false ≡ true). absurd (ground arith);
                })
          | inr d ↦ absurd (ground (arith, e, d, g))
        ]
      ]

  hydrated_candidate-IsKept :
      (kind : CollectionType) (c : Ranked f.Float) (r : HydrationRequest) (h : RawHydrated)
      (kept : Ranked f.Float) (b : Bool)
      → IsTextual f c
      → hydrated_candidate f kind dimension c r h ≡ ok (some (kept, b))
      → IsKept c kept b
  unfolding hydrated_candidate
  hydrated_candidate-IsKept kind c r malformed kept b t e = absurd (ground arith)
  hydrated_candidate-IsKept kind c r (hydrated h) kept b t e =
      elim (Option-cases (hydrated_text f kind c r h)) [
        | inl n ↦ absurd (ground arith)
        | inr (u, s) ↦
            let c' : Ranked f.Float = record c { raw_text = some u } in
            elim (Result-cases (with_vector f dimension h c')) [
              | inr (x, w) ↦ absurd (ground arith)
              | inl (k, w) ↦
                  let same : k ≡ (kept, b) = ground arith in
                  let i =
                    with_vector-IsKept h c' kept b
                      (t.0, (u, refl, hydrated_text-IsRequired f kind c r h u t.1 s))
                      (w ∙ ap ok same) in
                  record { same_id = i.same_id; presentable = i.presentable; usable = i.usable }
            ]
      ]

  -- What is kept of a list of candidates.
  pub record IsPool (cs pool : List (Ranked f.Float)) (flag : Bool) : Type 0 where
    pub within : Within (ranked_ids pool) (ranked_ids cs)
    pub presentable : All (IsPresentable f) pool
    pub usable : flag ≡ true → All (IsUsable f dimension) pool

  IsPool-nil : (cs : List (Ranked f.Float)) (flag : Bool) → IsPool cs [] flag
  IsPool-nil cs flag = record {
    within = Within-nil (ranked_ids cs);
    presentable = tt;
    usable = λ h. tt;
  }

  with_kept-IsPool :
      (c : Ranked f.Float) (cs : List (Ranked f.Float)) (kept : Option (Ranked f.Float × Bool))
      (rest : List (Ranked f.Float) × Bool)
      → ((k : Ranked f.Float) (b : Bool) → kept ≡ some (k, b) → IsKept c k b)
      → IsPool cs rest.0 rest.1
      → IsPool (c ∷ cs) (with_kept f kept rest).0 (with_kept f kept rest).1
  unfolding with_kept
  with_kept-IsPool c cs none rest k p = record {
    within = Within-skip c.object_id _ (ranked_ids cs) p.within;
    presentable = p.presentable;
    usable = p.usable;
  }
  with_kept-IsPool c cs (some (kept, b)) (pool, flag) k p =
      let i = k kept b refl in
      record {
        within = rw i.same_id (Within-keep c.object_id _ (ranked_ids cs) p.within);
        presentable = (i.presentable, p.presentable);
        usable = λ g. (i.usable (ground arith), p.usable (ground arith));
      }

  hydrated_pool-IsPool :
      (kind : CollectionType) (cs : List (Ranked f.Float)) (rs : List HydrationRequest)
      (hs : List RawHydrated) (pool : List (Ranked f.Float) × Bool)
      → All (IsTextual f) cs
      → hydrated_pool f kind dimension cs rs hs ≡ ok pool
      → IsPool cs pool.0 pool.1
  unfolding hydrated_pool
  hydrated_pool-IsPool kind [] rs hs pool t e = rw (← ok_injective e) (IsPool-nil [] true)
  hydrated_pool-IsPool kind (c ∷ cs) [] hs pool t e =
      rw (← ok_injective e) (IsPool-nil (c ∷ cs) true)
  hydrated_pool-IsPool kind (c ∷ cs) (r ∷ rs) [] pool t e =
      rw (← ok_injective e) (IsPool-nil (c ∷ cs) true)
  hydrated_pool-IsPool kind (c ∷ cs) (r ∷ rs) (h ∷ hs) pool t e =
      let (kept, a, e₁) = bind-eq-ok (hydrated_candidate f kind dimension c r h) _ e in
      let (rest, b, e₂) = bind-eq-ok (hydrated_pool f kind dimension cs rs hs) _ e₁ in
      subst (λ (p : List (Ranked f.Float) × Bool). IsPool (c ∷ cs) p.0 p.1) (ok_injective e₂)
        (with_kept-IsPool c cs kept rest
          (λ k g same. hydrated_candidate-IsKept kind c r h k g t.0 (a ∙ ap ok same))
          (hydrated_pool-IsPool kind cs rs hs rest t.1 b))

-- What the hydration returns are some of the candidates, in their order, each with an identifier and
-- a text that are not blank; where the flag is set, the vector of each is usable.
pub hydrate_mmr_head-IsPool :
    (f : Floats) (dimension : ℕ)
    (hydrate : List HydrationRequest → Result (Option (List RawHydrated)))
    (candidates : List (Ranked f.Float)) (kind : CollectionType) (pool : List (Ranked f.Float))
    (usable : Bool)
    → hydrate_mmr_head f hydrate candidates kind dimension ≡ ok (pool, usable)
    → IsPool f dimension candidates pool usable
unfolding hydrate_mmr_head
hydrate_mmr_head-IsPool f dimension hydrate [] kind pool usable h =
    subst (λ (p : List (Ranked f.Float) × Bool). IsPool f dimension [] p.0 p.1) (ok_injective h)
      (IsPool-nil f dimension [] true)
hydrate_mmr_head-IsPool f dimension hydrate (c ∷ cs) kind pool usable h =
    let (rs, p, h₁) = bind-eq-ok (traverse (hydration_request f kind) (c ∷ cs)) _ h in
    let (answer, q, h₂) = bind-eq-ok (hydrate rs) _ h₁ in
    answered c cs rs answer (requests-IsTextual f kind (c ∷ cs) rs p) h₂
  where
    answered :
        (c : Ranked f.Float) (cs : List (Ranked f.Float)) (rs : List HydrationRequest)
        (answer : Option (List RawHydrated))
        → All (IsTextual f) (c ∷ cs)
        → elim answer [
          | none ↦ err type_error
          | some hs ↦
              bind
                (guard (nat_beq (length hs) (length (c ∷ cs))) type_error)
                λ u. hydrated_pool f kind dimension (c ∷ cs) rs hs
        ]
          ≡ ok (pool, usable)
        → IsPool f dimension (c ∷ cs) pool usable
    answered c cs rs none t e = absurd (ground arith)
    answered c cs rs (some hs) t e =
        let (u, p, e₁) =
          bind-eq-ok (guard (nat_beq (length hs) (length (c ∷ cs))) type_error) _ e in
        hydrated_pool-IsPool f dimension kind (c ∷ cs) rs hs (pool, usable) t e₁
