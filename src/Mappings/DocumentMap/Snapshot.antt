-- ===== src/Mappings/DocumentMap/Snapshot.antt =====
-- The round trip of a saved document of backend/mappings/document_map.py through
-- `get_paragraph_data` and `restore_document` or `update_paragraphs`.
use mathlib.Core.Path.{subst}
use multi_tenant_rag_applica.Prelude.{
  ℕ, suc, zero, ◌≤◌, ◌<◌, ◌≡◌, ◌≢◌, refl, sym, ap, Bool, true, List, [], ◌∷◌, ◌++◌, All, all,
  length, length-map, arith, nat_eq, list_eq, eq_iff, contains, some, if◌then◌else◌, ◌==◌,
}
use mathlib.Core.List.{append_assoc, append-nil}
use multi_tenant_rag_applica.Python.Text.{Text}
use multi_tenant_rag_applica.Python.Object.{
  Object, Entries, end, entry, mapping, items, int, pos, str,
}
use multi_tenant_rag_applica.Python.Exec.{ok, ◌>>=◌}
use multi_tenant_rag_applica.Python.Dict.{Dict, keys, insert, lookup, lookup-insert}
use multi_tenant_rag_applica.Python.Sorting.{insert_by, sort_by, key_le, sorted_items, count_up}
use multi_tenant_rag_applica.Python.Sorting.Ascending.{Ascending}
use multi_tenant_rag_applica.Mappings.Common.{required_uuid, positive_paragraph_id}
use multi_tenant_rag_applica.Mappings.DocumentMap.{
  DocumentMap, Paragraphs, validated_items, covers_range, sequential, validated_replacement,
  document, store, get_paragraph_data, restore_document,
}
use multi_tenant_rag_applica.Mappings.DocumentMap.Sequential.{IsSequential}
use multi_tenant_rag_applica.Mappings.DocumentMap.Calls.{IsValid}

-- A saved document as the dictionary that a caller passes back.
abbrev paragraph_entries : Paragraphs → Entries
paragraph_entries [] = end
paragraph_entries ((k, t) ∷ d) = entry (int (pos k)) (str t) (paragraph_entries d)

abbrev pub paragraph_object : Paragraphs → Object
paragraph_object d = mapping (paragraph_entries d)

module _ {ℓ} {V : Type ℓ} where
  insert_fresh :
      (k : ℕ) (v : V) (d : Dict ℕ V) → All (λ j. j ≢ k) (keys d) → insert k v d ≡ d ++ (k, v) ∷ []
  unfolding insert
  insert_fresh k v [] h = refl
  insert_fresh k v ((j, w) ∷ d) h = ground (arith, insert_fresh k v d h.1)

  insert_by_first :
      (a k : ℕ) (v : V) (d : Dict ℕ V)
      → k < a
      → Ascending a (keys d)
      → insert_by key_le (k, v) d ≡ (k, v) ∷ d
  unfolding insert_by
  insert_by_first a k v [] le h = refl
  insert_by_first a k v ((j, w) ∷ d) le h = ground arith

  pub sorted_items-of-Ascending : (a : ℕ) (d : Dict ℕ V) → Ascending a (keys d) → sorted_items d ≡ d
  unfolding sort_by
  sorted_items-of-Ascending a [] h = refl
  sorted_items-of-Ascending a ((k, v) ∷ d) h =
      rw (sorted_items-of-Ascending (suc k) d h.1) (insert_by_first (suc k) k v d (omega arith) h.1)

Ascending-count_up : (a n : ℕ) → Ascending a (count_up a n)
Ascending-count_up a zero = tt
Ascending-count_up a (suc n) = (omega arith, Ascending-count_up (suc a) n)

all_imp :
    (p q : ℕ → Bool) (xs : List ℕ)
    → ((x : ℕ) → p x ≡ true → q x ≡ true)
    → all p xs ≡ true
    → all q xs ≡ true
all_imp p q [] f h = refl
all_imp p q (x ∷ xs) f h = ground (arith, f x, all_imp p q xs f)

all-contains : (xs : List ℕ) → all (λ k. contains k xs) xs ≡ true
unfolding contains
all-contains [] = refl
all-contains (x ∷ xs) = ground (
  arith,
  eq_iff x x,
  all_imp (λ k. contains k xs) (λ k. contains k (x ∷ xs)) xs (λ k h. ground arith)
      (all-contains xs),
)

pub covers_range-count_up :
    (n : ℕ) (xs : List ℕ) → xs ≡ count_up 1 n → length xs ≡ n → covers_range xs ≡ true
unfolding covers_range
covers_range-count_up n xs e l = rw (l, e, all-contains (count_up 1 n))

-- The keys collected so far lie below `a`.
fresh_of_lt :
    (a k : ℕ) (d : Paragraphs) → a ≤ k → All (λ j. j < a) (keys d) → All (λ j. j ≢ k) (keys d)
fresh_of_lt a k [] le h = tt
fresh_of_lt a k ((j, t) ∷ d) le h = (omega arith, fresh_of_lt a k d le h.1)

lt-append :
    (a k : ℕ) (t : Text) (d : Paragraphs)
    → a ≤ k
    → All (λ j. j < a) (keys d)
    → All (λ j. j < suc k) (keys (d ++ (k, t) ∷ []))
lt-append a k t [] le h = (omega arith, tt)
lt-append a k t ((j, s) ∷ d) le h = (omega arith, lt-append a k t d le h.1)

validated_items-snapshot :
    (a : ℕ) (d v : Paragraphs)
    → Ascending (suc a) (keys d)
    → All (λ j. j < suc a) (keys v)
    → validated_items (items (paragraph_entries d)) v ≡ ok (v ++ d)
unfolding validated_items items positive_paragraph_id
validated_items-snapshot a [] v h k = simp append-nil
validated_items-snapshot a ((zero, t) ∷ d) v h k = absurd (omega arith)
validated_items-snapshot a ((suc n, t) ∷ d) v h k =
    rw
      (
        insert_fresh (suc n) t v (fresh_of_lt (suc a) (suc n) v h.0 k),
        validated_items-snapshot (suc n) d (v ++ (suc n, t) ∷ []) h.1
            (lt-append (suc a) (suc n) t v h.0 k),
      )
      (ap ok (append_assoc v ((suc n, t) ∷ []) d))

pub validated_replacement-snapshot :
    (d : Paragraphs) → IsSequential d → validated_replacement (paragraph_object d) ≡ ok d
unfolding validated_replacement sequential
validated_replacement-snapshot [] h = absurd (omega arith)
validated_replacement-snapshot (e ∷ d) h =
    let up = subst (Ascending 1) (sym h.0) (Ascending-count_up 1 (length (e ∷ d))) in
    rw (
      validated_items-snapshot 0 (e ∷ d) [] up tt,
      covers_range-count_up (length (e ∷ d)) (keys (e ∷ d)) h.0 (length-map (e ∷ d) (λ f. f.0)),
      sorted_items-of-Ascending 1 (e ∷ d) up,
    )

saved :
    (document_id : Object) (key : Text) (m : DocumentMap) (d : Paragraphs)
    → required_uuid document_id ≡ ok key
    → (get_paragraph_data document_id m).0 ≡ ok d
    → lookup key m.documents ≡ some d
unfolding get_paragraph_data document ◌>>=◌
saved document_id key m d r e = ground arith

-- The snapshot that `get_paragraph_data` takes of a valid map is restored exactly, whatever has
-- happened to the map since: `restore_document` returns, and the only entry that it sets is the
-- document's, to the snapshot.
pub restore-get_paragraph_data :
    (document_id : Object) (key k : Text) (m later : DocumentMap) (d : Paragraphs)
    → IsValid m
    → required_uuid document_id ≡ ok key
    → (get_paragraph_data document_id m).0 ≡ ok d
    → let restored = restore_document document_id (paragraph_object d) later in
      (restored.0 ≡ ok tt)
      × (lookup k restored.1.documents ≡ (if key == k then some d else lookup k later.documents))
unfolding restore_document store ◌>>=◌
restore-get_paragraph_data document_id key k m later d v r e =
    rw (r, validated_replacement-snapshot d (v.at key d (saved document_id key m d r e)))
      (refl, lookup-insert key k d later.documents)
