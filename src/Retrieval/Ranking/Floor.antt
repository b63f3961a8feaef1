-- ===== src/Retrieval/Ranking/Floor.antt =====
-- The relevance floor of backend/rag/retrieval.py.
use multi_tenant_rag_applica.Prelude.{
  ◌≡◌, refl, true, List, [], ◌∷◌, arith, nat_eq, list_eq, Within, Within-refl, Within-nil,
  Within-keep, Within-skip, Bool-cases, inl, inr, ◌⊎◌, false,
}
use multi_tenant_rag_applica.Config.{CollectionType, conversations, knowledge_facts, policy}
use multi_tenant_rag_applica.Retrieval.Floats.{Floats}
use multi_tenant_rag_applica.Retrieval.Ranking.{
  Ranked, RetrievalConfig, at_least, above_floor, rescued, eligible_candidates,
}
use multi_tenant_rag_applica.Retrieval.Ranking.Scores.{ranked_ids}

module _ (f : Floats) where
  above_floor-Within :
      (floor : f.Float) (xs : List (Ranked f.Float))
      → Within (ranked_ids (above_floor f floor xs)) (ranked_ids xs)
  unfolding above_floor
  above_floor-Within floor [] = Within-refl []
  above_floor-Within floor (x ∷ xs) = elim (Bool-cases (at_least f x.rerank_score floor)) [
    | inl e ↦ rw e (Within-keep x.object_id _ _ (above_floor-Within floor xs))
    | inr e ↦ rw e (Within-skip x.object_id _ _ (above_floor-Within floor xs))
  ]

  rescued-Within :
      (floor : f.Float) (xs : List (Ranked f.Float))
      → Within (ranked_ids (rescued f floor xs)) (ranked_ids xs)
  unfolding rescued
  rescued-Within floor [] = Within-refl []
  rescued-Within floor (x ∷ xs) = elim (Bool-cases (at_least f x.rerank_score floor)) [
    | inl e ↦ rw e (Within-keep x.object_id [] _ (Within-nil (ranked_ids xs)))
    | inr e ↦ rw e (Within-nil _)
  ]

  pub eligible-Within :
      (policy_floor : f.Float) (xs : List (Ranked f.Float)) (config : RetrievalConfig f.Float)
      (kind : CollectionType)
      → Within (ranked_ids (eligible_candidates f policy_floor xs config kind)) (ranked_ids xs)
  unfolding eligible_candidates
  eligible-Within policy_floor xs config kind =
      go kind (above_floor f config.adaptive_relevance_floor xs)
        (above_floor-Within config.adaptive_relevance_floor xs)
    where
      go :
          (k : CollectionType) (kept : List (Ranked f.Float))
          → Within (ranked_ids kept) (ranked_ids xs)
          → Within
              (ranked_ids (elim kept [
                | [] ↦ (elim k [ policy ↦ rescued f policy_floor xs | _ ↦ [] ])
                | best ∷ rest ↦ best ∷ rest
              ]))
              (ranked_ids xs)
      go conversations [] w = w
      go knowledge_facts [] w = w
      go policy [] w = rescued-Within policy_floor xs
      go k (best ∷ rest) w = w

-- What the eligible candidates are. They are those of at least the relevance floor, in their order;
-- where there is none, the first policy is rescued if it has the policy floor.
pub data AreRelevant (f : Floats) (floor : f.Float)
    : List (Ranked f.Float) → List (Ranked f.Float) → Type 0 where
  done : AreRelevant f floor [] []
  kept :
      (c : Ranked f.Float) (xs ys : List (Ranked f.Float))
      → (f.is_less floor c.rerank_score ≡ true) ⊎ (f.is_equal c.rerank_score floor ≡ true)
      → AreRelevant f floor xs ys
      → AreRelevant f floor (c ∷ xs) (c ∷ ys)
  dropped :
      (c : Ranked f.Float) (xs ys : List (Ranked f.Float))
      → (f.is_less floor c.rerank_score ≡ false) × (f.is_equal c.rerank_score floor ≡ false)
      → AreRelevant f floor xs ys
      → AreRelevant f floor (c ∷ xs) ys

pub data IsEligible (f : Floats) (floor policy_floor : f.Float) (xs : List (Ranked f.Float))
    : CollectionType → List (Ranked f.Float) → Type 0 where
  relevant :
      (kind : CollectionType) (y : Ranked f.Float) (ys : List (Ranked f.Float))
      → AreRelevant f floor xs (y ∷ ys)
      → IsEligible f floor policy_floor xs kind (y ∷ ys)
  none_relevant :
      (kind : CollectionType)
      → (kind ≡ policy → ⊥)
      → AreRelevant f floor xs []
      → IsEligible f floor policy_floor xs kind []
  no_policy : xs ≡ [] → IsEligible f floor policy_floor xs policy []
  the_rescued :
      (best : Ranked f.Float) (rest : List (Ranked f.Float))
      → xs ≡ best ∷ rest
      → AreRelevant f floor xs []
      → (f.is_less policy_floor best.rerank_score ≡ true)
        ⊎ (f.is_equal best.rerank_score policy_floor ≡ true)
      → IsEligible f floor policy_floor xs policy (best ∷ [])
  too_low :
      (best : Ranked f.Float) (rest : List (Ranked f.Float))
      → xs ≡ best ∷ rest
      → AreRelevant f floor xs []
      → (f.is_less policy_floor best.rerank_score ≡ false)
        × (f.is_equal best.rerank_score policy_floor ≡ false)
      → IsEligible f floor policy_floor xs policy []

module _ (f : Floats) where
  reaches :
      (x y : f.Float) → at_least f x y ≡ true → (f.is_less y x ≡ true) ⊎ (f.is_equal x y ≡ true)
  unfolding at_least
  reaches x y h = elim (Bool-cases (f.is_less y x)) [ inl b ↦ inl b | inr b ↦ inr (ground arith) ]

  misses :
      (x y : f.Float) → at_least f x y ≡ false → (f.is_less y x ≡ false) × (f.is_equal x y ≡ false)
  unfolding at_least
  misses x y h = (ground arith, ground arith)

  above_floor-AreRelevant :
      (floor : f.Float) (xs : List (Ranked f.Float))
      → AreRelevant f floor xs (above_floor f floor xs)
  unfolding above_floor
  above_floor-AreRelevant floor [] = done
  above_floor-AreRelevant floor (x ∷ xs) = elim (Bool-cases (at_least f x.rerank_score floor)) [
    | inl e ↦ rw e (kept x xs _ (reaches x.rerank_score floor e) (above_floor-AreRelevant floor xs))
    | inr e ↦
        rw e (dropped x xs _ (misses x.rerank_score floor e) (above_floor-AreRelevant floor xs))
  ]

  rescued_cases :
      (floor policy_floor : f.Float) (xs : List (Ranked f.Float))
      → AreRelevant f floor xs []
      → IsEligible f floor policy_floor xs policy (rescued f policy_floor xs)
  unfolding rescued
  rescued_cases floor policy_floor [] e = no_policy refl
  rescued_cases floor policy_floor (best ∷ rest) e =
      elim (Bool-cases (at_least f best.rerank_score policy_floor)) [
        | inl b ↦ rw b (the_rescued best rest refl e (reaches best.rerank_score policy_floor b))
        | inr b ↦ rw b (too_low best rest refl e (misses best.rerank_score policy_floor b))
      ]

  floor_cases :
      (policy_floor : f.Float) (xs : List (Ranked f.Float)) (config : RetrievalConfig f.Float)
      (kind : CollectionType) (ys : List (Ranked f.Float))
      → above_floor f config.adaptive_relevance_floor xs ≡ ys
      → AreRelevant f config.adaptive_relevance_floor xs ys
      → IsEligible f config.adaptive_relevance_floor policy_floor xs kind
          (eligible_candidates f policy_floor xs config kind)
  unfolding eligible_candidates
  floor_cases policy_floor xs config conversations [] e r =
      rw (e, eligible_candidates) (none_relevant conversations (λ h. absurd (ground arith)) r)
  floor_cases policy_floor xs config knowledge_facts [] e r =
      rw (e, eligible_candidates) (none_relevant knowledge_facts (λ h. absurd (ground arith)) r)
  floor_cases policy_floor xs config policy [] e r =
      rw (e, eligible_candidates) (rescued_cases config.adaptive_relevance_floor policy_floor xs r)
  floor_cases policy_floor xs config kind (c ∷ cs) e r =
      rw (e, eligible_candidates) (relevant kind c cs r)

-- The eligible candidates are exactly those of at least the relevance floor, in their order, where
-- there are any. Where there is none, there is no eligible candidate, except that of the policies
-- the first candidate is the only one if it has at least the policy floor.
pub eligible_candidates-floor :
    (f : Floats) (policy_floor : f.Float) (xs : List (Ranked f.Float))
    (config : RetrievalConfig f.Float) (kind : CollectionType)
    → IsEligible f config.adaptive_relevance_floor policy_floor xs kind
        (eligible_candidates f policy_floor xs config kind)
eligible_candidates-floor f policy_floor xs config kind =
    floor_cases f policy_floor xs config kind (above_floor f config.adaptive_relevance_floor xs)
      refl (above_floor-AreRelevant f config.adaptive_relevance_floor xs)
