-- ===== src/Retrieval/Budget.antt =====
-- The token budget of the results in backend/rag/retrieval.py.
use mathlib.Core.Path.{subst}
use multi_tenant_rag_applica.Prelude.{
  ℕ, zero, suc, ◌≤◌, ◌<◌, ◌≡◌, refl, ◌∙◌, ap, ◌⊎◌, inl, inr, List, [], ◌∷◌, leb, length, take,
  arith, Bool-cases,
}
use multi_tenant_rag_applica.Python.Text.{Text}
use multi_tenant_rag_applica.Python.Object.{Object, str}
use multi_tenant_rag_applica.Python.Exec.{
  Result, Error, Result-cases, ok, err, bind-eq-ok, traverse,
}
use multi_tenant_rag_applica.Config.{CollectionType}
use multi_tenant_rag_applica.Retrieval.{
  Candidate, FinalResult, required_text, final_result, final_results, context, copied_result,
  fitting, budget_results,
}

module _ {S : Type 0} (token_count : Text → Result ℕ) (budget : ℕ) where
  -- The context of the first `count` results has been counted, and is within the budget or above it.
  abbrev pub IsFitting : ℕ → List (FinalResult S) → Type 0
  IsFitting count results =
      (n : ℕ) × (token_count (context (take count results)) ≡ ok n) × (n ≤ budget)

  abbrev pub IsOver : ℕ → List (FinalResult S) → Type 0
  IsOver count results =
      (n : ℕ) × (token_count (context (take count results)) ≡ ok n) × (budget < n)

  -- The first `kept` results are the longest beginning that fits, of those no longer than `count`.
  pub record IsLongest (count kept : ℕ) (results : List (FinalResult S)) : Type 0 where
    pub short : kept ≤ count
    pub fits : (kept ≡ 0) ⊎ IsFitting kept results
    pub longest : (n : ℕ) → kept < n → n ≤ count → IsOver n results

  -- The tokenizer raises on a beginning, and every longer one is above the budget.
  pub record IsRaised (count : ℕ) (x : Error) (results : List (FinalResult S)) : Type 0 where
    pub reached : ℕ
    pub short : reached ≤ count
    pub raises : token_count (context (take reached results)) ≡ err x
    pub longest : (n : ℕ) → reached < n → n ≤ count → IsOver n results

  longer :
      (count kept : ℕ) (results : List (FinalResult S))
      → IsOver (suc count) results
      → ((n : ℕ) → kept < n → n ≤ count → IsOver n results)
      → (n : ℕ) → kept < n
      → n ≤ suc count
      → IsOver n results
  longer count kept results over l n h k = elim (Bool-cases (leb n count)) [
    | inl b ↦ l n h (ground arith)
    | inr b ↦
        let is_whole : suc count ≡ n = ground arith in subst (λ j. IsOver j results) is_whole over
  ]

  fitting-cases :
      (count : ℕ) (results : List (FinalResult S))
      → ((kept : ℕ) × (fitting token_count budget count results ≡ ok (take kept results))
          × IsLongest count kept results)
        ⊎ ((x : Error) × (fitting token_count budget count results ≡ err x)
            × IsRaised count x results)
  unfolding fitting
  fitting-cases zero results = inl (
    0,
    refl,
    record {
      short = omega arith;
      fits = inl refl;
      longest = λ n h k. absurd (omega (arith, h, k));
    },
  )
  fitting-cases (suc count) results =
      elim (Result-cases (token_count (context (take (suc count) results)))) [
        | inr (x, e) ↦ inr (
          x,
          rw e,
          record {
            reached = suc count;
            short = omega arith;
            raises = e;
            longest = λ n h k. absurd (omega (arith, h, k));
          },
        )
        | inl (tokens, e) ↦ elim (Bool-cases (leb tokens budget)) [
          | inl b ↦ inl (
            suc count,
            rw (e, b),
            record {
              short = omega arith;
              fits = inr (tokens, e, ground arith);
              longest = λ n h k. absurd (omega (arith, h, k));
            },
          )
          | inr b ↦
              let over : IsOver (suc count) results = (tokens, e, ground arith) in
              elim (fitting-cases count results) [
                | inl (kept, f, l) ↦ inl (
                  kept,
                  rw (e, b) f,
                  record {
                    short = omega (arith, l.short);
                    fits = l.fits;
                    longest = longer count kept results over l.longest;
                  },
                )
                | inr (x, f, l) ↦ inr (
                  x,
                  rw (e, b) f,
                  record {
                    reached = l.reached;
                    short = omega (arith, l.short);
                    raises = l.raises;
                    longest = longer count l.reached results over l.longest;
                  },
                )
              ]
        ]
      ]

required_text-again :
    (o : Object) (t : Text) → required_text o ≡ ok t → required_text (str t) ≡ ok t
unfolding required_text
required_text-again (str s) t h =
    let same : s ≡ t = ground arith in subst (λ u. required_text (str u) ≡ ok u) same (ground arith)
required_text-again _ t h = absurd (ground arith)

module _ {S : Type 0} (kind : CollectionType) where
  abbrev text_of : Result (FinalResult S) → Text
  text_of (ok r) = r.raw_text
  text_of (err e) = []

  -- A final result is copied as it is.
  copied-final_result :
      (item : Candidate S) (r : FinalResult S)
      → final_result kind item ≡ ok r
      → copied_result r ≡ ok r
  unfolding final_result copied_result
  copied-final_result item r h =
      let (object_id, a, h₁) = bind-eq-ok (required_text item.object_id) _ h in
      let (raw_text, b, h₂) = bind-eq-ok (required_text item.raw_text) _ h₁ in
      let same : raw_text ≡ r.raw_text = ap text_of h₂ in
      rw (required_text-again item.raw_text r.raw_text (b ∙ ap ok same))

  copied-final_results :
      (items : List (Candidate S)) (rs : List (FinalResult S))
      → traverse (final_result kind) items ≡ ok rs
      → traverse copied_result rs ≡ ok rs
  unfolding traverse
  copied-final_results [] rs h =
      let none_left : [] ≡ rs = ground arith in
      subst (λ l. traverse copied_result l ≡ ok l) none_left refl
  copied-final_results (item ∷ items) rs h =
      let (r, a, h₁) = bind-eq-ok (final_result kind item) _ h in
      let (rest, b, h₂) = bind-eq-ok (traverse (final_result kind) items) _ h₁ in
      let both : r ∷ rest ≡ rs = ground arith in
      subst (λ l. traverse copied_result l ≡ ok l) both
        (rw (copied-final_result item r a, copied-final_results items rest b))

-- On what `_final_results` returns, `_budget_results` keeps the longest beginning whose context,
-- joined by the separators, is within the budget, every longer one being above it; or it raises what
-- the tokenizer raises on the context of a beginning, every longer one being above the budget.
pub budget_results-final_results :
    {S : Type 0} (token_count : Text → Result ℕ) (budget : ℕ) (kind : CollectionType)
    (selected : List (Candidate S)) (results : List (FinalResult S))
    → final_results selected kind ≡ ok results
    → ((kept : ℕ) × (budget_results token_count budget results ≡ ok (take kept results))
        × IsLongest token_count budget (length results) kept results)
      ⊎ ((x : Error) × (budget_results token_count budget results ≡ err x)
          × IsRaised token_count budget (length results) x results)
unfolding final_results budget_results
budget_results-final_results token_count budget kind selected results h =
    let copied = copied-final_results kind selected results h in
    elim (fitting-cases token_count budget (length results) results) [
      | inl (kept, f, l) ↦ inl (kept, rw (copied, f), l)
      | inr (x, f, l) ↦ inr (x, rw (copied, f), l)
    ]
