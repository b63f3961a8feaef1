-- ===== src/Retrieval/Pipeline/Presented.antt =====
-- From the adaptive pool to the results of `retrieve` in backend/rag/retrieval.py.
use multi_tenant_rag_applica.Prelude.{
  ℕ, zero, suc, ◌≤◌, ◌≡◌, ◌≢◌, refl, sym, ◌∙◌, ap, Bool, true, false, ◌⊎◌, Option, List, [], ◌∷◌,
  map, arith, All, length, take, length-take, length-map, nat_eq, list_eq, Within, Within-trans,
  Within-take, inl, inr,
}
use mathlib.Core.Path.{subst}
use multi_tenant_rag_applica.Python.Text.{Text}
use multi_tenant_rag_applica.Python.Exec.{Result, Error, ok, err, ok_injective, traverse}
use multi_tenant_rag_applica.Config.{CollectionType, conversations, knowledge_facts, policy}
use multi_tenant_rag_applica.Retrieval.{
  Candidate, FinalResult, final_result, final_results, context, final_score,
}
use multi_tenant_rag_applica.Retrieval.Budget.{budget_results-final_results, IsLongest}
use multi_tenant_rag_applica.Retrieval.Floats.{Floats}
use multi_tenant_rag_applica.Retrieval.Ranking.{Ranked}
use multi_tenant_rag_applica.Retrieval.Ranking.Scores.{ranked_ids}
use multi_tenant_rag_applica.Retrieval.Diversity.Selected.{mmr-All}
use multi_tenant_rag_applica.Retrieval.Hydration.{
  HydrationRequest, RawHydrated, hydrate_mmr_head, optional_text,
}
use multi_tenant_rag_applica.Retrieval.Hydration.Kept.{IsPresentable}
use multi_tenant_rag_applica.Retrieval.Hydration.Pool.{hydrate_mmr_head-IsPool}
use multi_tenant_rag_applica.Retrieval.Pipeline.{
  Services, diverse, final_candidate, final_candidates, budgeted, presented,
}
use multi_tenant_rag_applica.Retrieval.Pipeline.Distinct.{diverse-Within}

abbrev pub result_ids : {F : Type 0} → List (FinalResult F) → List Text
result_ids = map (λ r. r.object_id)

take_all : {A : Type 0} (xs : List A) → take (length xs) xs ≡ xs
take_all [] = refl
take_all (x ∷ xs) = ap (◌∷◌ x) (take_all xs)

All-take : {A : Type 0} (P : A → Type 0) (n : ℕ) (xs : List A) → All P xs → All P (take n xs)
All-take P zero xs h = tt
All-take P (suc n) [] h = tt
All-take P (suc n) (x ∷ xs) h = (h.0, All-take P n xs h.1)

module _ (f : Floats) (s : Services f.Float) where
  diverse-All :
      (kind : CollectionType) (pool selected : List (Ranked f.Float)) (usable : Bool)
      → All (IsPresentable f) pool
      → diverse f s kind (pool, usable) ≡ ok selected
      → All (IsPresentable f) selected
  unfolding diverse
  diverse-All kind pool selected true h e =
      mmr-All f (IsPresentable f) pool (s.config kind).final_count (s.config kind) selected h e
  diverse-All kind pool selected false h e =
      subst (All (IsPresentable f)) (ok_injective e)
        (All-take (IsPresentable f) (s.config kind).final_count pool h)

  final_result-ok :
      (kind : CollectionType) (c : Ranked f.Float)
      → IsPresentable f c
      → (r : FinalResult f.Float) × (final_result kind (final_candidate f s c) ≡ ok r)
        × (r.object_id ≡ c.object_id)
  unfolding final_result final_candidate optional_text
  final_result-ok kind c (p, (t, q, r)) = (
    record {
      object_id = c.object_id;
      raw_text = t;
      rerank_score = final_score kind c.rerank_score;
    },
    rw (p, q, optional_text, r),
    refl,
  )

  -- What is presentable has a result each.
  final_results-ok :
      (kind : CollectionType) (selected : List (Ranked f.Float))
      → All (IsPresentable f) selected
      → (results : List (FinalResult f.Float)) × (final_results (final_candidates f s selected) kind
          ≡ ok results)
        × (result_ids results ≡ ranked_ids selected)
  unfolding final_results final_candidates traverse
  final_results-ok kind [] h = ([], refl, refl)
  final_results-ok kind (c ∷ cs) h =
      let (r, e, i) = final_result-ok kind c h.0 in
      let (rs, e', i') = final_results-ok kind cs h.1 in (r ∷ rs, rw (e, e'), cc (i, i'))

  -- The context has been counted, and is within the budget.
  abbrev IsCounted : ℕ → List (FinalResult f.Float) → Type 0
  IsCounted budget results =
      (results ≡ []) ⊎ ((n : ℕ) × (s.token_count (context results) ≡ ok n) × (n ≤ budget))

  -- The tokens of the collections that have a budget.
  pub FitsBudget : CollectionType → List (FinalResult f.Float) → Type 0
  FitsBudget conversations results = Unit
  FitsBudget knowledge_facts results = IsCounted s.knowledge_tokens results
  FitsBudget policy results = IsCounted s.policy_tokens results

  -- The tokenizer raises on the context of the first of the results.
  abbrev pub IsUncountable : Error → List (FinalResult f.Float) → Type 0
  IsUncountable x results = (n : ℕ) × (s.token_count (context (take n results)) ≡ err x)

  abbrev BudgetCases : CollectionType → List (FinalResult f.Float) → Type 0
  BudgetCases kind results =
      ((kept : ℕ) × (budgeted f s kind results ≡ ok (take kept results))
        × FitsBudget kind (take kept results))
      ⊎ ((x : Error) × (budgeted f s kind results ≡ err x)
          × (kind ≢ conversations)
          × IsUncountable x results)

  taken_fits :
      (budget kept : ℕ) (results : List (FinalResult f.Float))
      → IsLongest s.token_count budget (length results) kept results
      → IsCounted budget (take kept results)
  taken_fits budget kept results l = elim l.fits [ inl z ↦ inl (rw z refl) | inr t ↦ inr t ]

  budgeted-cases :
      (kind : CollectionType) (selected : List (Candidate f.Float))
      (results : List (FinalResult f.Float))
      → final_results selected kind ≡ ok results
      → BudgetCases kind results
  unfolding budgeted FitsBudget
  budgeted-cases conversations selected results h = inl (length results, rw (take_all results), tt)
  budgeted-cases knowledge_facts selected results h =
      elim (budget_results-final_results s.token_count s.knowledge_tokens knowledge_facts selected
        results h) [
          | inl (kept, e, l) ↦ inl (kept, e, taken_fits s.knowledge_tokens kept results l)
          | inr (x, e, r) ↦ inr (x, e, λ same. absurd (ground arith), (r.reached, r.raises))
        ]
  budgeted-cases policy selected results h =
      elim (budget_results-final_results s.token_count s.policy_tokens policy selected results h) [
        | inl (kept, e, l) ↦ inl (kept, e, taken_fits s.policy_tokens kept results l)
        | inr (x, e, r) ↦ inr (x, e, λ same. absurd (ground arith), (r.reached, r.raises))
      ]

pub presented-hydrated :
    (f : Floats) (s : Services f.Float)
    (hydrate : List HydrationRequest → Result (Option (List RawHydrated))) (kind : CollectionType)
    (candidates pool : List (Ranked f.Float)) (usable : Bool)
    → hydrate_mmr_head f hydrate candidates kind s.vector_dimension ≡ ok (pool, usable)
    → ((results : List (FinalResult f.Float)) × (presented f s hydrate kind candidates ≡ ok results)
        × Within (result_ids results) (ranked_ids candidates)
        × (length results ≤ (s.config kind).final_count)
        × FitsBudget f s kind results)
      ⊎ ((x : Error) × (presented f s hydrate kind candidates ≡ err x)
          × (kind ≢ conversations)
          × ((results : List (FinalResult f.Float)) × Within
                (result_ids results)
                (ranked_ids candidates)
              × IsUncountable f s x results))
unfolding presented
presented-hydrated f s hydrate kind candidates pool usable h =
    let p = hydrate_mmr_head-IsPool f s.vector_dimension hydrate candidates kind pool usable h in
    let (selected, d, l, w) = diverse-Within f s kind candidates pool usable p in
    let (results, r, i) =
      final_results-ok f s kind selected
        (diverse-All f s kind pool selected usable p.presentable d) in
    let counted : length results ≡ length selected =
      sym (length-map results (λ (x : FinalResult f.Float). x.object_id))
      ∙ ap length i
      ∙ length-map selected (λ (x : Ranked f.Float). x.object_id) in
    let within : Within (result_ids results) (ranked_ids candidates) = rw i w in
    elim (budgeted-cases f s kind (final_candidates f s selected) results r) [
      | inl (kept, b, t) ↦ inl (
        take kept results,
        rw (h, d, r) b,
        Within-trans _ _ _ (Within-take (λ (x : FinalResult f.Float). x.object_id) kept results)
            within,
        omega (arith, counted, l, length-take kept results),
        t,
      )
      | inr (x, b, other, u) ↦ inr (x, rw (h, d, r) b, other, (results, within, u))
    ]
