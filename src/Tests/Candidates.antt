-- ===== src/Tests/Candidates.antt =====
-- The candidates and the whole of `retrieve` in backend/rag/retrieval.py on small inputs.
use multi_tenant_rag_applica.Prelude.{
  ℕ, zero, suc, ◌<◌, ◌≡◌, ◌≢◌, refl, some, none, true, List, [], ◌∷◌, map, All, nodup, arith, inl,
  inr, nat_eq, list_eq, if◌then◌else◌, nat_beq,
}
use multi_tenant_rag_applica.Python.Text.{Text, text, strip, strip_right, strip_left, is_space}
use multi_tenant_rag_applica.Python.Object.{Object, str, int, pos}
use multi_tenant_rag_applica.Python.Uuid.{uuid}
use multi_tenant_rag_applica.Python.Exec.{ok}
use multi_tenant_rag_applica.Config.{conversations, knowledge_facts}
use multi_tenant_rag_applica.Retrieval.Candidates.{
  SearchResult, malformed, result, NormalResult, normalized_candidates, checked_fields,
  segment_number,
}
use multi_tenant_rag_applica.Retrieval.Candidates.Scanned.{object_ids, Identified}
use multi_tenant_rag_applica.Retrieval.Candidates.Clean.{normalized_candidates-Identified}
use multi_tenant_rag_applica.Retrieval.Candidates.Quarantine.{
  Damages, normalized_candidates-damaged, normalized_candidates-twice,
}
use multi_tenant_rag_applica.Tests.Given.{id_1, id_2, id_3}

abbrev pub as_text : Object → Text
as_text value = text "value"

-- The segment with the number 0 is `id_2`, every other one `id_3`.
abbrev pub uuid5 : Text → ℕ → Text
uuid5 conversation zero = id_2
uuid5 conversation (suc n) = id_3

abbrev found : Text → Text → Object → SearchResult
found object_id canonical_id index = record {
  object_id = str object_id;
  canonical_id = str canonical_id;
  retrieval_text = str (text "words");
  segment_index = index;
}

abbrev normal : Text → Text → Object → NormalResult
normal object_id canonical_id index = record {
  object_id = object_id;
  canonical_id = canonical_id;
  retrieval_text = text "words";
  segment_index = index;
}

abbrev first : SearchResult
first = found id_2 id_1 (int (pos 0))

-- Its index is that of another segment.
abbrev mistaken : SearchResult
mistaken = found id_2 id_1 (int (pos 4))

-- A conversation without damage stays; a malformed result is passed over.
kept :
    normalized_candidates as_text uuid5 (some (result first ∷ malformed ∷ [])) conversations
    ≡ ok (normal id_2 id_1 (int (pos 0)) ∷ [])
unfolding normalized_candidates strip strip_right strip_left is_space uuid
    multi_tenant_rag_applica.Prelude.contains multi_tenant_rag_applica.Python.Dict.lookup
kept = refl

normalized_candidates-Identified_example :
    (nodup (object_ids (normal id_2 id_1 (int (pos 0)) ∷ [])) ≡ true)
    × All (Identified as_text uuid5 conversations) (normal id_2 id_1 (int (pos 0)) ∷ [])
normalized_candidates-Identified_example =
    normalized_candidates-Identified as_text uuid5 conversations (result first ∷ malformed ∷ [])
      (normal id_2 id_1 (int (pos 0)) ∷ []) kept

damaged :
    normalized_candidates as_text uuid5 (some (result first ∷ result mistaken ∷ [])) conversations
    ≡ ok []
unfolding normalized_candidates strip strip_right strip_left is_space uuid
    multi_tenant_rag_applica.Prelude.contains multi_tenant_rag_applica.Python.Dict.lookup
damaged = refl

mistaken-Damages : Damages as_text uuid5 mistaken id_1
unfolding checked_fields strip strip_right strip_left is_space uuid segment_number
mistaken-Damages = inr (normal id_2 id_1 (int (pos 4)), refl, refl, refl)

normalized_candidates-damaged_example : All (λ (item : NormalResult). item.canonical_id ≢ id_1) []
normalized_candidates-damaged_example =
    normalized_candidates-damaged as_text uuid5 (result first ∷ result mistaken ∷ []) [] 1 mistaken
      id_1 damaged refl mistaken-Damages

twice :
    normalized_candidates as_text uuid5
      (some (result (found id_1 id_1 Object.none) ∷ result (found id_1 id_1 Object.none) ∷ []))
      knowledge_facts
    ≡ ok []
unfolding normalized_candidates strip strip_right strip_left is_space uuid
    multi_tenant_rag_applica.Prelude.contains
twice = refl

normalized_candidates-twice_example :
    All (λ (candidate : NormalResult). candidate.object_id ≢ id_1) []
unfolding checked_fields strip strip_right strip_left is_space uuid
normalized_candidates-twice_example =
    normalized_candidates-twice as_text uuid5 knowledge_facts
      (result (found id_1 id_1 Object.none) ∷ result (found id_1 id_1 Object.none) ∷ []) [] 0 1
      (found id_1 id_1 Object.none) (found id_1 id_1 Object.none) (normal id_1 id_1 Object.none)
      (normal id_1 id_1 Object.none) twice (ground arith) refl refl refl refl refl
