-- ===== src/Retrieval/Candidates.antt =====
-- `_normalized_candidates` of backend/rag/retrieval.py: the results of the first stage, with what is
-- malformed, ambiguous or of a damaged conversation left out. What the logger is told is left out.
pub mod Clean
pub mod Scanned
pub mod Grows
pub mod Quarantine
use multi_tenant_rag_applica.Prelude.{
  ℕ, Bool, true, false, ◌&&◌, ◌||◌, not, Option, none, some, List, [], ◌∷◌, ◌++◌, ◌==◌, nat_eq,
  list_eq, contains, if◌then◌else◌,
}
use multi_tenant_rag_applica.Python.Text.{Text}
use multi_tenant_rag_applica.Python.Object.{Object, str, int, pos}
use multi_tenant_rag_applica.Python.Exec.{Result, ok, err, type_error, value_error, bind}
use multi_tenant_rag_applica.Python.Dict.{Dict, lookup, insert}
use multi_tenant_rag_applica.Python.Uuid.{uuid}
use multi_tenant_rag_applica.Config.{CollectionType, conversations, knowledge_facts, policy}
use multi_tenant_rag_applica.Retrieval.{required_text}

-- `SearchResult`, whose fields the store's client may have filled with anything.
pub record SearchResult : Type 0 where
  pub object_id : Object
  pub canonical_id : Object
  pub retrieval_text : Object
  pub segment_index : Object

-- An element of the list that `hybrid_search` returns.
pub data RawResult : Type 0 where
  malformed : RawResult
  result : SearchResult → RawResult

-- A `SearchResult` that is normalized.
pub record NormalResult : Type 0 where
  pub object_id : Text
  pub canonical_id : Text
  pub retrieval_text : Text
  pub segment_index : Object

-- The variables of the loop. A set is a list.
pub record Scan : Type 0 where
  pub normalized : List NormalResult
  pub seen_object_ids : List Text
  pub quarantined_object_ids : List Text
  pub quarantined_conversations : List Text
  pub conversation_indices : Dict Text (Dict ℕ Text)

abbrev pub empty_scan : Scan
empty_scan = record {
  normalized = [];
  seen_object_ids = [];
  quarantined_object_ids = [];
  quarantined_conversations = [];
  conversation_indices = [];
}

abbrev pub is_conversations : CollectionType → Bool
is_conversations conversations = true
is_conversations _ = false

-- `str(UUID(_required_text(value, name)))`
unfoldable pub required_uuid_text : Object → Result Text
unfolding required_text
required_uuid_text value =
    bind (required_text value)
      λ t. elim (uuid t) [ none ↦ err value_error | some canonical ↦ ok canonical ]

-- The three checks under `try`, and the result with what they return.
unfoldable pub checked_fields : SearchResult → Result NormalResult
unfolding required_uuid_text required_text
checked_fields r = bind (required_uuid_text r.object_id) λ object_id.
    bind (required_uuid_text r.canonical_id) λ canonical_id.
      bind (required_text r.retrieval_text) λ retrieval_text. ok (record {
        object_id = object_id;
        canonical_id = canonical_id;
        retrieval_text = retrieval_text;
        segment_index = r.segment_index;
      })

-- The canonical identifiers of the kept results with this object identifier.
unfoldable pub canonical_ids_of : Text → List NormalResult → List Text
canonical_ids_of object_id [] = []
canonical_ids_of object_id (item ∷ items) =
    let rest = canonical_ids_of object_id items in
    if item.object_id == object_id then item.canonical_id ∷ rest else rest

-- `str` of an object that is no text, and `uuid5` in the namespace of a conversation of the name
-- `retrieval-segment:` and a number.
module _ (as_text : Object → Text) (uuid5 : Text → ℕ → Text) where
  -- `str(value)`
  unfoldable pub object_text : Object → Text
  object_text (str t) = t
  object_text value = as_text value

  -- The index of the segment, when the object's identifier is the one derived from it.
  unfoldable pub segment_number : NormalResult → Option ℕ
  segment_number item = elim item.segment_index [
    | int (pos n) ↦ if item.object_id == uuid5 item.canonical_id n then some n else none
    | _ ↦ none
  ]

  unfoldable pub quarantine_object : Text → Scan → Scan
  quarantine_object object_id s = record s {
    quarantined_object_ids = object_id ∷ s.quarantined_object_ids;
  }

  unfoldable pub quarantine_conversation : Text → Scan → Scan
  quarantine_conversation canonical_id s = record s {
    quarantined_conversations = canonical_id ∷ s.quarantined_conversations;
  }

  -- A result whose fields are invalid takes its conversation with it, where that can be told.
  unfoldable pub scan_invalid : CollectionType → SearchResult → Scan → Scan
  unfolding object_text quarantine_conversation
  scan_invalid kind r s = elim (uuid (object_text r.canonical_id)) [
    | none ↦ s
    | some conversation ↦
        if is_conversations kind then quarantine_conversation conversation s else s
  ]

  -- A second result with the same identifier takes the first, and both conversations, with it.
  unfoldable pub scan_duplicate : CollectionType → NormalResult → Scan → Scan
  unfolding quarantine_object canonical_ids_of
  scan_duplicate kind item s =
      let marked = quarantine_object item.object_id s in
      if is_conversations kind
      then record marked {
        quarantined_conversations =
            canonical_ids_of item.object_id s.normalized
            ++ item.canonical_id ∷ s.quarantined_conversations;
      }
      else marked

  unfoldable pub append_result : NormalResult → Scan → Scan
  append_result item s = record s { normalized = s.normalized ++ item ∷ [] }

  -- `conversation_indices.setdefault(canonical_id, {})`
  unfoldable pub indices_of : Text → Scan → Dict ℕ Text
  indices_of canonical_id s = elim (lookup canonical_id s.conversation_indices) [
    | none ↦ []
    | some d ↦ d
  ]

  unfoldable pub scan_segment : NormalResult → ℕ → Scan → Scan
  unfolding indices_of append_result quarantine_conversation
  scan_segment item n s =
      let indices = indices_of item.canonical_id s in
      let indexed = record s {
        conversation_indices =
            insert item.canonical_id (insert n item.object_id indices) s.conversation_indices;
      } in
      elim (lookup n indices) [
        | none ↦ append_result item indexed
        | some existing ↦
            if existing == item.object_id
            then append_result item indexed
            else quarantine_conversation item.canonical_id s
      ]

  unfoldable pub scan_new : CollectionType → NormalResult → Scan → Scan
  unfolding segment_number quarantine_conversation quarantine_object scan_segment append_result
  scan_new conversations item s = elim (segment_number item) [
    | none ↦ quarantine_conversation item.canonical_id s
    | some n ↦ scan_segment item n s
  ]
  scan_new _ item s =
      if item.canonical_id == item.object_id
      then append_result item s
      else quarantine_object item.object_id s

  unfoldable pub scan_valid : CollectionType → NormalResult → Scan → Scan
  unfolding scan_duplicate scan_new
  scan_valid kind item s =
      if contains item.object_id s.seen_object_ids
      then scan_duplicate kind item s
      else scan_new kind item (record s { seen_object_ids = item.object_id ∷ s.seen_object_ids })

  unfoldable pub scan_result : CollectionType → RawResult → Scan → Scan
  unfolding scan_invalid scan_valid checked_fields
  scan_result kind malformed s = s
  scan_result kind (result r) s = elim (checked_fields r) [
    | ok item ↦ scan_valid kind item s
    | err e ↦ scan_invalid kind r s
  ]

  unfoldable pub scan_results : CollectionType → List RawResult → Scan → Scan
  unfolding scan_result
  scan_results kind [] s = s
  scan_results kind (r ∷ rs) s = scan_results kind rs (scan_result kind r s)

  unfoldable pub is_kept : Scan → NormalResult → Bool
  is_kept s item =
      not (contains item.object_id s.quarantined_object_ids)
      && not (contains item.canonical_id s.quarantined_conversations)

  unfoldable pub kept_results : Scan → List NormalResult → List NormalResult
  unfolding is_kept
  kept_results s [] = []
  kept_results s (item ∷ items) =
      let rest = kept_results s items in if is_kept s item then item ∷ rest else rest

  -- Of what `hybrid_search` returned, where `none` stands for a value that is no list.
  unfoldable pub normalized_candidates :
      Option (List RawResult) → CollectionType → Result (List NormalResult)
  unfolding scan_results kept_results
  normalized_candidates none kind = err type_error
  normalized_candidates (some results) kind =
      let s = scan_results kind results empty_scan in ok (kept_results s s.normalized)
