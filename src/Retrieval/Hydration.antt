-- ===== src/Retrieval/Hydration.antt =====
-- `_hydrate_mmr_head` of backend/rag/retrieval.py: the candidates with their texts and vectors from
-- the store; what the store answers for another object, or marks as damaged, is left out.
pub mod Kept
pub mod Pool
use multi_tenant_rag_applica.Prelude.{
  ℕ, zero, suc, Bool, true, false, ◌&&◌, ◌||◌, not, Option, none, some, List, [], ◌∷◌, ◌++◌, map,
  nat_beq, length, get_elem?, ◌==◌, nat_eq, list_eq, if◌then◌else◌,
}
use multi_tenant_rag_applica.Python.Text.{Text, is_empty}
use multi_tenant_rag_applica.Python.Object as Object
use multi_tenant_rag_applica.Python.Object.{Object, bool, int, pos, str, list, tuple, elements}
use multi_tenant_rag_applica.Python.Exec.{
  Result, is_argument_error, ok, err, type_error, value_error, bind, guard, traverse,
}
use multi_tenant_rag_applica.Config.{CollectionType, conversations, knowledge_facts, policy}
use multi_tenant_rag_applica.Retrieval.{required_text}
use multi_tenant_rag_applica.Retrieval.Floats.{Floats}
use multi_tenant_rag_applica.Retrieval.Ranking.{Ranked, segment_index_of}
use multi_tenant_rag_applica.Retrieval.Diversity.{norm, at_most}

-- The `SearchResult` of a request.
pub record HydrationRequest : Type 0 where
  pub object_id : Text
  pub canonical_id : Text
  pub retrieval_text : Text
  pub segment_index : Option ℕ

-- `HydratedSearchResult`, whose fields may hold anything.
pub record HydratedResult : Type 0 where
  pub object_id : Object
  pub canonical_id : Object
  pub segment_index : Object
  pub quarantine_reason : Option Text
  pub raw_text : Object
  pub diversity_vector : Object

pub data RawHydrated : Type 0 where
  malformed : RawHydrated
  hydrated : HydratedResult → RawHydrated

-- `value == text`
unfoldable pub equals_text : Object → Text → Bool
equals_text (str t) u = t == u
equals_text _ u = false

-- `value == index`, where `True` is 1 and `False` is 0.
unfoldable pub equals_index : Object → Option ℕ → Bool
equals_index Object.none none = true
equals_index (int (pos m)) (some n) = nat_beq m n
equals_index (bool b) (some n) = nat_beq (if b then 1 else 0) n
equals_index _ _ = false

unfoldable pub begins_with : Text → Text → Bool
begins_with [] t = true
begins_with (c ∷ cs) [] = false
begins_with (c ∷ cs) (d ∷ ds) = nat_beq c d && begins_with cs ds

-- `part in whole`
unfoldable pub occurs_in : Text → Text → Bool
unfolding begins_with
occurs_in part [] = is_empty part
occurs_in part (c ∷ cs) = begins_with part (c ∷ cs) || occurs_in part cs

unfoldable pub matches_request : HydratedResult → HydrationRequest → Bool
unfolding equals_text equals_index
matches_request h r =
    equals_text h.object_id r.object_id
    && equals_text h.canonical_id r.canonical_id
    && equals_index h.segment_index r.segment_index

unfoldable pub optional_text : Option Text → Object
optional_text none = Object.none
optional_text (some t) = str t

module _ (f : Floats) where
  unfoldable pub hydration_request : CollectionType → Ranked f.Float → Result HydrationRequest
  unfolding required_text optional_text segment_index_of
  hydration_request conversations candidate =
      bind (required_text (optional_text candidate.segment_id)) λ object_id.
        bind (required_text (str candidate.object_id)) λ canonical_id.
          bind (required_text (str candidate.retrieval_text)) λ retrieval_text.
            bind (segment_index_of candidate.segment_index) λ index. ok (record {
              object_id = object_id;
              canonical_id = canonical_id;
              retrieval_text = retrieval_text;
              segment_index = some index;
            })
  hydration_request _ candidate = bind (required_text (str candidate.object_id)) λ object_id.
      bind (required_text (str candidate.retrieval_text)) λ retrieval_text. ok (record {
        object_id = object_id;
        canonical_id = object_id;
        retrieval_text = retrieval_text;
        segment_index = none;
      })

  -- One number of a vector. A TypeError or ValueError of `float` is raised as a TypeError.
  unfoldable pub vector_item : Object → Result f.Float
  vector_item (bool b) = err type_error
  vector_item value = elim (f.to_float value) [
    | err e ↦ err (if is_argument_error e then type_error else e)
    | ok x ↦ bind (guard (f.is_finite x) value_error) λ _. ok x
  ]

  unfoldable pub vector_items : List Object → Result (List f.Float)
  unfolding vector_item
  vector_items values =
      bind (traverse vector_item values) λ v. bind (guard (not (is_empty v)) value_error) λ _. ok v

  -- `_vector`
  unfoldable pub vector : Object → Result (List f.Float)
  unfolding vector_items
  vector (list xs) = vector_items (elements xs)
  vector (tuple xs) = vector_items (elements xs)
  vector _ = err type_error

  -- `dimension` is `MMR_DIVERSITY_VECTOR_DIMENSION`.
  unfoldable pub diversity_vector : ℕ → Object → Result (List f.Float)
  unfolding vector norm at_most
  diversity_vector dimension value = bind (vector value) λ v.
      bind (guard (nat_beq (length v) dimension) value_error)
        λ _. bind (guard (not (at_most f (norm f v) f.zero)) value_error) λ _. ok v

  -- The text of the candidate, or `none` where it is left out.
  unfoldable pub hydrated_text :
      CollectionType → Ranked f.Float → HydrationRequest → HydratedResult → Option Text
  unfolding occurs_in required_text
  hydrated_text conversations candidate r h = elim (required_text h.raw_text) [
    | err e ↦ none
    | ok raw_text ↦ if occurs_in r.retrieval_text raw_text then some raw_text else none
  ]
  hydrated_text _ candidate r h = some candidate.retrieval_text

  unfoldable pub with_vector : ℕ → HydratedResult → Ranked f.Float → Result (Ranked f.Float × Bool)
  unfolding diversity_vector
  with_vector dimension h candidate = elim (diversity_vector dimension h.diversity_vector) [
    | err e ↦ (if is_argument_error e then ok (candidate, false) else err e)
    | ok v ↦ ok (record candidate { diversity_vector = some v }, true)
  ]

  -- A candidate that is kept, and whether its vector is usable.
  unfoldable pub hydrated_candidate :
      CollectionType
      → ℕ
      → Ranked f.Float
      → HydrationRequest
      → RawHydrated
      → Result (Option (Ranked f.Float × Bool))
  unfolding matches_request hydrated_text with_vector
  hydrated_candidate kind dimension candidate r malformed = ok none
  hydrated_candidate kind dimension candidate r (hydrated h) =
      if not (matches_request h r) then ok none else elim h.quarantine_reason [
        | some reason ↦ ok none
        | none ↦ elim (hydrated_text kind candidate r h) [
          | none ↦ ok none
          | some t ↦
              bind (with_vector dimension h (record candidate { raw_text = some t }))
                λ kept. ok (some kept)
        ]
      ]

  unfoldable pub with_kept :
      Option (Ranked f.Float × Bool) → List (Ranked f.Float) × Bool → List (Ranked f.Float) × Bool
  with_kept none rest = rest
  with_kept (some (candidate, has_vector)) (pool, usable) = (candidate ∷ pool, has_vector && usable)

  -- The loop over the three lists, which have the same length.
  unfoldable pub hydrated_pool :
      CollectionType
      → ℕ
      → List (Ranked f.Float)
      → List HydrationRequest
      → List RawHydrated
      → Result (List (Ranked f.Float) × Bool)
  unfolding hydrated_candidate with_kept
  hydrated_pool kind dimension (c ∷ cs) (r ∷ rs) (h ∷ hs) =
      bind (hydrated_candidate kind dimension c r h)
        λ kept. bind (hydrated_pool kind dimension cs rs hs) λ rest. ok (with_kept kept rest)
  hydrated_pool kind dimension _ _ _ = ok ([], true)

  -- The store may raise, and gives `none` for a value that is no list.
  unfoldable pub hydrate_mmr_head :
      (List HydrationRequest → Result (Option (List RawHydrated)))
      → List (Ranked f.Float)
      → CollectionType
      → ℕ
      → Result (List (Ranked f.Float) × Bool)
  unfolding hydration_request hydrated_pool
  hydrate_mmr_head hydrate [] kind dimension = ok ([], true)
  hydrate_mmr_head hydrate (c ∷ cs) kind dimension =
      bind (traverse (hydration_request kind) (c ∷ cs)) λ requested.
        bind (hydrate requested) λ answer. elim answer [
          | none ↦ err type_error
          | some raw_hydrated ↦
              bind (guard (nat_beq (length raw_hydrated) (length (c ∷ cs))) type_error)
                λ _. hydrated_pool kind dimension (c ∷ cs) requested raw_hydrated
        ]
