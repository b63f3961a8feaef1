-- ===== src/Retrieval/Candidates/Quarantine.antt =====
-- What `_normalized_candidates` of backend/rag/retrieval.py leaves out: every result of a damaged
-- conversation, and every identifier that comes twice.
use multi_tenant_rag_applica.Retrieval.Candidates.Grows.{
  contains-behind, scan_new-Grows, scan_duplicate-Grows, scan_result-Grows, scan_results-Grows,
  scan_result-ok, scan_results-ok, scan_result-err,
}
use multi_tenant_rag_applica.Prelude.{
  ℕ, suc, zero, ◌<◌, ◌≡◌, ◌≢◌, ◌⊎◌, true, none, some, List, [], ◌∷◌, arith, nat_eq, list_eq,
  contains, All, Bool-cases, inl, inr, eq_refl, get_elem?,
}
use multi_tenant_rag_applica.Python.Text.{Text}
use multi_tenant_rag_applica.Python.Object.{Object}
use multi_tenant_rag_applica.Python.Exec.{Error, ok, err}
use multi_tenant_rag_applica.Python.Uuid.{uuid}
use multi_tenant_rag_applica.Config.{CollectionType, conversations}
use multi_tenant_rag_applica.Retrieval.Candidates.{
  SearchResult, RawResult, result, NormalResult, Scan, empty_scan, checked_fields, object_text,
  canonical_ids_of, segment_number, quarantine_object, quarantine_conversation, scan_invalid,
  scan_duplicate, scan_new, scan_valid, scan_result, scan_results, is_kept, kept_results,
  normalized_candidates,
}
use multi_tenant_rag_applica.Retrieval.Candidates.Clean.{All-kept_results}

abbrev Subset : List Text → List Text → Type 0
Subset xs ys = (x : Text) → contains x xs ≡ true → contains x ys ≡ true

module _ (as_text : Object → Text) (uuid5 : Text → ℕ → Text) where
  scan_invalid-damaged :
      (r : SearchResult) (c : Text) (s : Scan)
      → uuid (object_text as_text uuid5 r.canonical_id) ≡ some c
      → contains c (scan_invalid as_text uuid5 conversations r s).quarantined_conversations ≡ true
  unfolding scan_invalid quarantine_conversation contains
  scan_invalid-damaged r c s u = ground (arith, eq_refl c)

  -- The result tells of the conversation that it is damaged: its fields are invalid, or its
  -- identifier is not the one of its segment.
  abbrev pub Damages : SearchResult → Text → Type 0
  Damages r c =
      ((e : Error) × (checked_fields r ≡ err e)
        × (uuid (object_text as_text uuid5 r.canonical_id) ≡ some c))
      ⊎ ((item : NormalResult) × (checked_fields r ≡ ok item)
          × (item.canonical_id ≡ c)
          × (segment_number as_text uuid5 item ≡ none))

  scan_valid-damaged :
      (item : NormalResult) (s : Scan)
      → segment_number as_text uuid5 item ≡ none
      → contains item.canonical_id
          (scan_valid as_text uuid5 conversations item s).quarantined_conversations
        ≡ true
  unfolding scan_valid scan_duplicate scan_new quarantine_object quarantine_conversation contains
  scan_valid-damaged item s e = ground (
    arith,
    eq_refl item.canonical_id,
    contains-behind item.canonical_id (canonical_ids_of item.object_id s.normalized)
        (item.canonical_id ∷ s.quarantined_conversations),
  )

  scan_result-damaged :
      (r : SearchResult) (c : Text) (s : Scan)
      → Damages r c
      → contains c (scan_result as_text uuid5 conversations (result r) s).quarantined_conversations
        ≡ true
  scan_result-damaged r c s (inl (x, e, u)) =
      rw (scan_result-err as_text uuid5 conversations r x s e) (scan_invalid-damaged r c s u)
  scan_result-damaged r c s (inr (item, e, u, n)) =
      rw (scan_result-ok as_text uuid5 conversations r item s e, ← u) (scan_valid-damaged item s n)

  scan_results-damaged :
      (rs : List RawResult) (s : Scan) (i : ℕ) (r : SearchResult) (c : Text)
      → get_elem? rs i ≡ some (result r)
      → Damages r c
      → contains c (scan_results as_text uuid5 conversations rs s).quarantined_conversations ≡ true
  unfolding scan_results
  scan_results-damaged [] s i r c h d = absurd (ground arith)
  scan_results-damaged (x ∷ rs) s zero r c h d =
      let here : x ≡ result r = ground arith in
      rw here (
        (scan_results-Grows as_text uuid5 conversations rs
            (scan_result as_text uuid5 conversations (result r) s)).groups
          c (scan_result-damaged r c s d))
  scan_results-damaged (x ∷ rs) s (suc i) r c h d =
      scan_results-damaged rs (scan_result as_text uuid5 conversations x s) i r c h d

  scan_valid-seen :
      (kind : CollectionType) (item : NormalResult) (s : Scan)
      → contains item.object_id (scan_valid as_text uuid5 kind item s).seen_object_ids ≡ true
  unfolding scan_valid contains
  scan_valid-seen kind item s = elim (Bool-cases (contains item.object_id s.seen_object_ids)) [
    | inl e ↦ rw e ((scan_duplicate-Grows as_text uuid5 kind item s).seen item.object_id e)
    | inr e ↦ rw e (
        (scan_new-Grows as_text uuid5 kind item
            (record s { seen_object_ids = item.object_id ∷ s.seen_object_ids })).seen
          item.object_id (ground (arith, eq_refl item.object_id)))
  ]

  scan_valid-again :
      (kind : CollectionType) (item : NormalResult) (s : Scan)
      → contains item.object_id s.seen_object_ids ≡ true
      → contains item.object_id (scan_valid as_text uuid5 kind item s).quarantined_object_ids ≡ true
  unfolding scan_valid scan_duplicate quarantine_object contains
  scan_valid-again kind item s h = ground (arith, eq_refl item.object_id)

  scan_results-again :
      (kind : CollectionType) (rs : List RawResult) (s : Scan) (j : ℕ) (r : SearchResult)
      (item : NormalResult)
      → contains item.object_id s.seen_object_ids ≡ true
      → get_elem? rs j ≡ some (result r)
      → checked_fields r ≡ ok item
      → contains item.object_id (scan_results as_text uuid5 kind rs s).quarantined_object_ids ≡ true
  unfolding scan_results
  scan_results-again kind [] s j r item o h e = absurd (ground arith)
  scan_results-again kind (x ∷ rs) s zero r item o h e =
      let here : x ≡ result r = ground arith in
      rw (here, scan_results-ok as_text uuid5 kind r rs item s e)
        ((scan_results-Grows as_text uuid5 kind rs (scan_valid as_text uuid5 kind item s)).objects
          item.object_id (scan_valid-again kind item s o))
  scan_results-again kind (x ∷ rs) s (suc j) r item o h e =
      scan_results-again kind rs (scan_result as_text uuid5 kind x s) j r item
        ((scan_result-Grows as_text uuid5 kind x s).seen item.object_id o) h e

  scan_results-twice :
      (kind : CollectionType) (rs : List RawResult) (s : Scan) (i j : ℕ) (r r' : SearchResult)
      (item item' : NormalResult)
      → i < j
      → get_elem? rs i ≡ some (result r)
      → get_elem? rs j ≡ some (result r')
      → checked_fields r ≡ ok item
      → checked_fields r' ≡ ok item'
      → item.object_id ≡ item'.object_id
      → contains item'.object_id (scan_results as_text uuid5 kind rs s).quarantined_object_ids
        ≡ true
  unfolding scan_results
  scan_results-twice kind [] s i j r r' item item' l h h' e e' o = absurd (ground arith)
  scan_results-twice kind (x ∷ rs) s i zero r r' item item' l h h' e e' o =
      absurd (omega (arith, l))
  scan_results-twice kind (x ∷ rs) s zero (suc j) r r' item item' l h h' e e' o =
      let here : x ≡ result r = ground arith in
      rw (here, scan_results-ok as_text uuid5 kind r rs item s e)
        (scan_results-again kind rs (scan_valid as_text uuid5 kind item s) j r' item'
          (rw (← o) (scan_valid-seen kind item s)) h' e')
  scan_results-twice kind (x ∷ rs) s (suc i) (suc j) r r' item item' l h h' e e' o =
      scan_results-twice kind rs (scan_result as_text uuid5 kind x s) i j r r' item item'
        (omega (arith, l)) h h' e e' o

  All-trivial : (items : List NormalResult) → All (λ item. Unit {0}) items
  All-trivial [] = tt
  All-trivial (item ∷ items) = (tt, All-trivial items)

  All-map {κ μ} :
      (P : NormalResult → Type κ) (Q : NormalResult → Type μ) (items : List NormalResult)
      → ((item : NormalResult) → P item → Q item)
      → All P items
      → All Q items
  All-map P Q [] f h = tt
  All-map P Q (item ∷ items) f h = (f item h.0, All-map P Q items f h.1)

  -- What holds of every result that is kept holds of every candidate.
  All-candidates {κ} :
      (P : NormalResult → Type κ) (kind : CollectionType) (rs : List RawResult)
      (candidates : List NormalResult)
      → normalized_candidates as_text uuid5 (some rs) kind ≡ ok candidates
      → ((item : NormalResult)
          → is_kept as_text uuid5 (scan_results as_text uuid5 kind rs empty_scan) item ≡ true
          → P item)
      → All P candidates
  unfolding normalized_candidates
  All-candidates P kind rs candidates h f =
      let s : Scan = scan_results as_text uuid5 kind rs empty_scan in
      let same : kept_results as_text uuid5 s s.normalized ≡ candidates = ground arith in
      rw (← same) (
        All-map _ P (kept_results as_text uuid5 s s.normalized) (λ item i. f item i.1)
          (All-kept_results as_text uuid5 (λ item. Unit {0}) s s.normalized
            (All-trivial s.normalized)))

-- When a result tells of a conversation that it is damaged, no candidate is of that conversation.
pub normalized_candidates-damaged :
    (as_text : Object → Text) (uuid5 : Text → ℕ → Text) (results : List RawResult)
    (candidates : List NormalResult) (i : ℕ) (r : SearchResult) (c : Text)
    → normalized_candidates as_text uuid5 (some results) conversations ≡ ok candidates
    → get_elem? results i ≡ some (result r)
    → Damages as_text uuid5 r c
    → All (λ item. item.canonical_id ≢ c) candidates
unfolding is_kept
normalized_candidates-damaged as_text uuid5 results candidates i r c h g d =
    All-candidates as_text uuid5 _ conversations results candidates h λ item k same.
      absurd (ground (arith, scan_results-damaged as_text uuid5 results empty_scan i r c g d))

-- When two valid results have the same object identifier, no candidate has it.
pub normalized_candidates-twice :
    (as_text : Object → Text) (uuid5 : Text → ℕ → Text) (kind : CollectionType)
    (results : List RawResult) (candidates : List NormalResult) (i j : ℕ) (r r' : SearchResult)
    (item item' : NormalResult)
    → normalized_candidates as_text uuid5 (some results) kind ≡ ok candidates
    → i < j
    → get_elem? results i ≡ some (result r)
    → get_elem? results j ≡ some (result r')
    → checked_fields r ≡ ok item
    → checked_fields r' ≡ ok item'
    → item.object_id ≡ item'.object_id
    → All (λ candidate. candidate.object_id ≢ item'.object_id) candidates
unfolding is_kept
normalized_candidates-twice as_text uuid5 kind results candidates i j r r' item item' h l g g' e e'
      o =
    All-candidates as_text uuid5 _ kind results candidates h λ candidate k same. absurd (
      ground (
        arith,
        scan_results-twice as_text uuid5 kind results empty_scan i j r r' item item' l g g' e e' o,
      ))
