-- ===== src/Mappings/ParagraphMap/Validation.antt =====
-- What `_validated_document_replacement` of backend/mappings/paragraph_map.py lets through.
use mathlib.Core.Path.{subst, subst₂}
use multi_tenant_rag_applica.Prelude.{
  ℕ, ◌≡◌, refl, true, false, not, ◌||◌, some, List, [], ◌∷◌, ◌++◌, all, any, arith, nat_eq, list_eq,
  eq_iff, contains, nodup,
}
use multi_tenant_rag_applica.Python.Text.{Text}
use multi_tenant_rag_applica.Python.Object.{Object, items, mapping, list}
use multi_tenant_rag_applica.Python.Exec.{ok, bind-eq-ok, guard, value_error}
use multi_tenant_rag_applica.Python.Dict.{keys, lookup, insert, lookup-insert}
use multi_tenant_rag_applica.Python.Dict.Members.{
  nodup-insert, nodup-sorted_items, lookup-sorted_items,
}
use multi_tenant_rag_applica.Python.Sorting.{sorted_items}
use multi_tenant_rag_applica.Mappings.Common.{positive_paragraph_id}
use multi_tenant_rag_applica.Mappings.ParagraphMap.{
  ParagraphMap, Chunks, validated_chunk_ids, validated_entries, sequential_chunks,
  is_free_for_document, validated_document_replacement,
}

-- No list holds a chunk twice, no two lists share one, and `within` holds all of them.
pub record Fits (within : List Text) (v : Chunks) : Type 0 where
  pub unique : nodup (keys v) ≡ true
  pub distinct : (p : ℕ) (ids : List Text) → lookup p v ≡ some ids → nodup ids ≡ true
  pub seen :
      (p : ℕ) (ids : List Text) (c : Text)
      → lookup p v ≡ some ids
      → contains c ids ≡ true
      → contains c within ≡ true
  pub disjoint :
      (p q : ℕ) (ids js : List Text) (c : Text)
      → lookup p v ≡ some ids
      → lookup q v ≡ some js
      → contains c ids ≡ true
      → contains c js ≡ true
      → p ≡ q

contains-++ :
    (c : Text) (xs ys : List Text) → contains c (xs ++ ys) ≡ (contains c xs || contains c ys)
unfolding contains
contains-++ c [] ys = refl
contains-++ c (x ∷ xs) ys = ground (arith, contains-++ c xs ys)

any-contains :
    (c : Text) (seen ids : List Text)
    → any (λ x. contains x seen) ids ≡ false
    → contains c ids ≡ true
    → contains c seen ≡ false
unfolding contains
any-contains c seen [] h i = cc
any-contains c seen (x ∷ ids) h i = ground (arith, eq_iff x c, any-contains c seen ids)

Fits-insert :
    (within ids : List Text) (v : Chunks) (p : ℕ)
    → Fits within v
    → nodup ids ≡ true
    → any (λ c. contains c within) ids ≡ false
    → Fits (ids ++ within) (insert p ids v)
Fits-insert within ids v p f n fresh = record {
  unique = nodup-insert p ids v f.unique;
  distinct = λ q js e. ground (arith, lookup-insert p q ids v, f.distinct q js);
  seen = λ q js c e i.
      ground (arith, lookup-insert p q ids v, f.seen q js c, contains-++ c ids within);
  disjoint = λ q r js ks c e g i j. ground (
    arith,
    lookup-insert p q ids v,
    lookup-insert p r ids v,
    f.disjoint q r js ks c,
    f.seen q js c,
    f.seen r ks c,
    any-contains c within ids fresh,
    eq_iff p q,
    eq_iff p r,
  );
}

Fits-nil : Fits [] []
unfolding lookup nodup contains
Fits-nil = record {
  unique = refl;
  distinct = λ p ids e. cc;
  seen = λ p ids c e i. cc;
  disjoint = λ p q ids js c e g i j. cc;
}

pub validated_chunk_ids-nodup :
    (o : Object) {ids : List Text} → validated_chunk_ids o ≡ ok ids → nodup ids ≡ true
unfolding validated_chunk_ids
validated_chunk_ids-nodup (list xs) e = ground arith
validated_chunk_ids-nodup _ e = cc

validated_entries-Fits :
    (es : List (Object × Object)) (seen : List Text) (v : Chunks) {out : List Text × Chunks}
    → Fits seen v
    → validated_entries es seen v ≡ ok out
    → Fits out.0 out.1
unfolding validated_entries
validated_entries-Fits [] seen v {out} f e =
    let a : seen ≡ out.0 = ground arith in let b : v ≡ out.1 = ground arith in subst₂ Fits a b f
validated_entries-Fits ((k, x) ∷ es) seen v f e =
    let (p, _, e₁) = bind-eq-ok (positive_paragraph_id k) _ e in
    let (ids, i, e₂) = bind-eq-ok (validated_chunk_ids x) _ e₁ in
    let (_, g, e₃) = bind-eq-ok (guard (not (any (λ c. contains c seen) ids)) value_error) _ e₂ in
    validated_entries-Fits es (ids ++ seen) (insert p ids v)
      (Fits-insert seen ids v p f (validated_chunk_ids-nodup x i) (ground arith)) e₃

Fits-blank : (within : List Text) → Fits within ((1, []) ∷ [])
unfolding lookup contains nodup
Fits-blank within = record {
  unique = refl;
  distinct = λ p ids e. ground arith;
  seen = λ p ids c e i. ground arith;
  disjoint = λ p q ids js c e g i j. ground arith;
}

Fits-sequential :
    (within : List Text) (v : Chunks) {d : Chunks}
    → Fits within v
    → sequential_chunks v ≡ ok d
    → Fits within d
unfolding sequential_chunks
Fits-sequential within [] {d} f e =
    let a : (1, []) ∷ [] ≡ d = cc in subst (Fits within) a (Fits-blank within)
Fits-sequential within (x ∷ v) {d} f e = let a : x ∷ v ≡ d = ground arith in subst (Fits within) a f

pub Fits-sorted : (within : List Text) (v : Chunks) → Fits within v → Fits within (sorted_items v)
Fits-sorted within v f = record {
  unique = nodup-sorted_items v f.unique;
  distinct = λ p ids e. f.distinct p ids (rw (lookup-sorted_items p v f.unique) at e);
  seen = λ p ids c e i. f.seen p ids c (rw (lookup-sorted_items p v f.unique) at e) i;
  disjoint = λ p q ids js c e g i j.
      f.disjoint p q ids js c (rw (lookup-sorted_items p v f.unique) at e)
        (rw (lookup-sorted_items q v f.unique) at g) i j;
}

-- A replacement that passed: its lists are disjoint, and no other document owns their chunks.
pub record Passed (document : Text) (m : ParagraphMap) (d : Chunks) : Type 0 where
  pub within : List Text
  pub fits : Fits within d
  pub free : all (is_free_for_document m document) within ≡ true

pub validated_document_replacement-Passed :
    (document : Text) (o : Object) (m : ParagraphMap) (d : Chunks)
    → validated_document_replacement document o m ≡ ok d
    → Passed document m d
unfolding validated_document_replacement
validated_document_replacement-Passed document (mapping es) m d e =
    let (found, i, e₁) = bind-eq-ok (validated_entries (items es) [] []) _ e in
    let (v, j, e₂) = bind-eq-ok (sequential_chunks found.1) _ e₁ in
    let sorted : sorted_items v ≡ d = ground arith in
    record {
      within = found.0;
      fits = subst (Fits found.0) sorted (
          Fits-sorted found.0 v (
            Fits-sequential found.0 found.1 (validated_entries-Fits (items es) [] [] Fits-nil i)
              j));
      free = ground arith;
    }
validated_document_replacement-Passed document _ m d e = cc
