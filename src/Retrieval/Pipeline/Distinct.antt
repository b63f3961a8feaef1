-- ===== src/Retrieval/Pipeline/Distinct.antt =====
-- The results of `retrieve` in backend/rag/retrieval.py: distinct, and no more than configured.
use multi_tenant_rag_applica.Prelude.{
  ◌≤◌, ◌≡◌, refl, Bool, true, false, Option, none, some, List, map, arith, length, take,
  length-take, nat_eq, list_eq, nodup, Within, Within-trans, Within-take,
}
use multi_tenant_rag_applica.Python.Text.{Text}
use multi_tenant_rag_applica.Python.Exec.{ok, bind-eq-ok, ok_injective}
use multi_tenant_rag_applica.Python.Sorting.Keyed.{Within-sort_by}
use multi_tenant_rag_applica.Config.{CollectionType, conversations, knowledge_facts, policy}
use multi_tenant_rag_applica.Retrieval.Floats.{Floats}
use multi_tenant_rag_applica.Retrieval.Candidates.{RawResult, NormalResult, normalized_candidates}
use multi_tenant_rag_applica.Retrieval.Candidates.Clean.{normalized_candidates-Identified}
use multi_tenant_rag_applica.Retrieval.Ranking.{
  Ranked, cross_encoder, eligible_candidates, adaptive_k, precedes,
}
use multi_tenant_rag_applica.Retrieval.Ranking.Scores.{ranked_ids, cross_encoder-found}
use multi_tenant_rag_applica.Retrieval.Ranking.Collapse.{collapse_conversations-nodup}
use multi_tenant_rag_applica.Retrieval.Ranking.Floor.{eligible-Within}
use multi_tenant_rag_applica.Retrieval.Diversity.Selected.{mmr-Within}
use multi_tenant_rag_applica.Retrieval.Hydration.Pool.{IsPool}
use multi_tenant_rag_applica.Retrieval.Pipeline.{Services, regrouped, adaptive_pool, diverse}

module _ (f : Floats) (s : Services f.Float) where
  regrouped-nodup :
      (kind : CollectionType) (reranked groups : List (Ranked f.Float))
      → nodup (ranked_ids reranked) ≡ true
      → regrouped f s kind reranked ≡ ok groups
      → nodup (ranked_ids groups) ≡ true
  unfolding regrouped
  regrouped-nodup conversations reranked groups n h =
      (collapse_conversations-nodup f reranked (s.config conversations).candidate_count groups h).0
  regrouped-nodup knowledge_facts reranked groups n h = rw (← ok_injective h) n
  regrouped-nodup policy reranked groups n h = rw (← ok_injective h) n

  normalized-nodup :
      (kind : CollectionType) (found : Option (List RawResult)) (candidates : List NormalResult)
      → normalized_candidates s.as_text s.uuid5 found kind ≡ ok candidates
      → nodup (map (λ (c : NormalResult). c.object_id) candidates) ≡ true
  unfolding normalized_candidates
  normalized-nodup kind none candidates h = absurd (ground arith)
  normalized-nodup kind (some results) candidates h =
      (normalized_candidates-Identified s.as_text s.uuid5 kind results candidates h).0

  -- The adaptive pool has no identifier twice.
  pub adaptive_pool-nodup :
      (kind : CollectionType) (query : Text) (found : Option (List RawResult))
      (pool : List (Ranked f.Float))
      → adaptive_pool f s kind query found ≡ ok pool
      → nodup (ranked_ids pool) ≡ true
  unfolding adaptive_pool
  adaptive_pool-nodup kind query found pool h =
      let (candidates, a, h₁) =
        bind-eq-ok (normalized_candidates s.as_text s.uuid5 found kind) _ h in
      let (reranked, b, h₂) = bind-eq-ok (cross_encoder f s.rerank candidates query) _ h₁ in
      let (groups, c, h₃) = bind-eq-ok (regrouped f s kind reranked) _ h₂ in
      let eligible = eligible_candidates f s.policy_floor groups (s.config kind) kind in
      let (count, d, h₄) = bind-eq-ok (adaptive_k f eligible (s.config kind)) _ h₃ in
      let (selected, same, w, l, v) =
        cross_encoder-found f s.rerank candidates query reranked
          (normalized-nodup kind found candidates a) b in
      let reranked_once : nodup (ranked_ids reranked) ≡ true = rw same (
        (Within-sort_by (precedes f) (λ (r : Ranked f.Float). r.object_id) selected).distinct
          (w.distinct (normalized-nodup kind found candidates a))) in
      rw (← ok_injective h₄) (
        (Within-take (λ (r : Ranked f.Float). r.object_id) count eligible).distinct (
          (eligible-Within f s.policy_floor groups (s.config kind) kind).distinct
            (regrouped-nodup kind reranked groups reranked_once c)))

  -- The selection does not raise on a hydrated pool.
  pub diverse-Within :
      (kind : CollectionType) (cs pool : List (Ranked f.Float)) (usable : Bool)
      → IsPool f s.vector_dimension cs pool usable
      → (selected : List (Ranked f.Float)) × (diverse f s kind (pool, usable) ≡ ok selected)
        × (length selected ≤ (s.config kind).final_count)
        × Within (ranked_ids selected) (ranked_ids cs)
  unfolding diverse
  diverse-Within kind cs pool true p =
      let (selected, e, l, w) =
        mmr-Within f s.vector_dimension pool (s.config kind).final_count (s.config kind)
          (p.usable refl) in
      (selected, e, omega (arith, l), Within-trans _ _ _ w p.within)
  diverse-Within kind cs pool false p = (
    take (s.config kind).final_count pool,
    refl,
    omega (arith, length-take (s.config kind).final_count pool),
    Within-trans _ _ _
        (Within-take (λ (r : Ranked f.Float). r.object_id) (s.config kind).final_count pool)
        p.within,
  )
