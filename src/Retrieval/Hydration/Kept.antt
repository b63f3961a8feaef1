-- ===== src/Retrieval/Hydration/Kept.antt =====
-- The candidates that `_hydrate_mmr_head` of backend/rag/retrieval.py keeps.
use multi_tenant_rag_applica.Prelude.{
  ℕ, ◌≡◌, false, some, List, [], ◌∷◌, arith, All, length, nat_eq, list_eq, inl, inr,
}
use mathlib.Core.Path.{subst}
use multi_tenant_rag_applica.Python.Text.{Text, is_empty}
use multi_tenant_rag_applica.Python.Object.{Object, str, list, tuple, elements}
use multi_tenant_rag_applica.Python.Exec.{ok, bind-eq-ok, Result-cases, traverse}
use multi_tenant_rag_applica.Config.{CollectionType, conversations, knowledge_facts, policy}
use multi_tenant_rag_applica.Retrieval.{required_text}
use multi_tenant_rag_applica.Retrieval.Floats.{Floats}
use multi_tenant_rag_applica.Retrieval.Ranking.{Ranked}
use multi_tenant_rag_applica.Retrieval.Diversity.Selected.{IsVector}
use multi_tenant_rag_applica.Retrieval.Hydration.{
  HydrationRequest, HydratedResult, optional_text, hydration_request, vector, vector_items,
  vector_item, diversity_vector, hydrated_text,
}

-- A text that `_required_text` returns as it is.
abbrev pub IsRequired : Text → Type 0
IsRequired t = required_text (str t) ≡ ok t

pub required_text-IsRequired : (o : Object) (t : Text) → required_text o ≡ ok t → IsRequired t
unfolding required_text
required_text-IsRequired (str s) t h =
    let same : s ≡ t = ground arith in subst (λ u. required_text (str u) ≡ ok u) same (ground arith)
required_text-IsRequired _ t h = absurd (ground arith)

IsRequired-str : (s t : Text) → required_text (str s) ≡ ok t → IsRequired s
unfolding required_text
IsRequired-str s t h = ground arith

module _ (f : Floats) where
  pub hydration_request-IsRequired :
      (kind : CollectionType) (c : Ranked f.Float) (r : HydrationRequest)
      → hydration_request f kind c ≡ ok r
      → IsRequired c.object_id × IsRequired c.retrieval_text
  unfolding hydration_request
  hydration_request-IsRequired conversations c r h =
      let (a, p, h₁) = bind-eq-ok (required_text (optional_text c.segment_id)) _ h in
      let (b, q, h₂) = bind-eq-ok (required_text (str c.object_id)) _ h₁ in
      let (t, s, h₃) = bind-eq-ok (required_text (str c.retrieval_text)) _ h₂ in
      (IsRequired-str c.object_id b q, IsRequired-str c.retrieval_text t s)
  hydration_request-IsRequired knowledge_facts c r h =
      let (b, q, h₁) = bind-eq-ok (required_text (str c.object_id)) _ h in
      let (t, s, h₂) = bind-eq-ok (required_text (str c.retrieval_text)) _ h₁ in
      (IsRequired-str c.object_id b q, IsRequired-str c.retrieval_text t s)
  hydration_request-IsRequired policy c r h =
      let (b, q, h₁) = bind-eq-ok (required_text (str c.object_id)) _ h in
      let (t, s, h₂) = bind-eq-ok (required_text (str c.retrieval_text)) _ h₁ in
      (IsRequired-str c.object_id b q, IsRequired-str c.retrieval_text t s)

  -- The texts of a candidate before the hydration and after it.
  abbrev pub IsTextual : Ranked f.Float → Type 0
  IsTextual c = IsRequired c.object_id × IsRequired c.retrieval_text

  abbrev pub IsPresentable : Ranked f.Float → Type 0
  IsPresentable c = IsRequired c.object_id × ((t : Text) × (c.raw_text ≡ some t) × IsRequired t)

  pub requests-IsTextual :
      (kind : CollectionType) (cs : List (Ranked f.Float)) (rs : List HydrationRequest)
      → traverse (hydration_request f kind) cs ≡ ok rs
      → All IsTextual cs
  unfolding traverse
  requests-IsTextual kind [] rs h = tt
  requests-IsTextual kind (c ∷ cs) rs h =
      let (r, p, h₁) = bind-eq-ok (hydration_request f kind c) _ h in
      let (rest, q, h₂) = bind-eq-ok (traverse (hydration_request f kind) cs) _ h₁ in
      (hydration_request-IsRequired kind c r p, requests-IsTextual kind cs rest q)

  pub hydrated_text-IsRequired :
      (kind : CollectionType) (c : Ranked f.Float) (r : HydrationRequest) (h : HydratedResult)
      (t : Text)
      → IsRequired c.retrieval_text
      → hydrated_text f kind c r h ≡ some t
      → IsRequired t
  unfolding hydrated_text
  hydrated_text-IsRequired conversations c r h t q e =
      elim (Result-cases (required_text h.raw_text)) [
        | inl (u, p) ↦
            let same : u ≡ t = ground arith in
            subst IsRequired same (required_text-IsRequired h.raw_text u p)
        | inr (x, p) ↦ absurd (ground arith)
      ]
  hydrated_text-IsRequired knowledge_facts c r h t q e =
      let same : c.retrieval_text ≡ t = ground arith in subst IsRequired same q
  hydrated_text-IsRequired policy c r h t q e =
      let same : c.retrieval_text ≡ t = ground arith in subst IsRequired same q

  vector_items-inhabited :
      (xs : List Object) (v : List f.Float) → vector_items f xs ≡ ok v → is_empty v ≡ false
  unfolding vector_items
  vector_items-inhabited xs v h =
      let (w, p, h₁) = bind-eq-ok (traverse (vector_item f) xs) _ h in ground arith

  vector-inhabited : (o : Object) (v : List f.Float) → vector f o ≡ ok v → is_empty v ≡ false
  unfolding vector
  vector-inhabited (list xs) v h = vector_items-inhabited (elements xs) v h
  vector-inhabited (tuple xs) v h = vector_items-inhabited (elements xs) v h
  vector-inhabited _ v h = absurd (ground arith)

  pub diversity_vector-IsVector :
      (dimension : ℕ) (o : Object) (v : List f.Float)
      → diversity_vector f dimension o ≡ ok v
      → IsVector f dimension v
  unfolding diversity_vector
  diversity_vector-IsVector dimension o v h =
      let (w, p, h₁) = bind-eq-ok (vector f o) _ h in
      let inhabited = vector-inhabited o w p in
      let same : w ≡ v = ground arith in
      subst (IsVector f dimension) same (record {
        sized = ground (arith, nat_eq.beq_iff (length w) dimension);
        inhabited = inhabited;
        nonzero = ground arith;
      })
