-- ===== src/Mappings/ParagraphMap/Replacement.antt =====
-- `replace_document` of backend/mappings/paragraph_map.py: once its checks pass, it returns, and
-- the document has exactly the given lists.
use multi_tenant_rag_applica.Prelude.{
  ℕ, ◌≡◌, refl, true, false, ◌&&◌, none, some, List, [], ◌∷◌, all, arith, ◌==◌, nat_eq, list_eq,
  pair_eq, eq_iff, contains, nodup, if◌then◌else◌, contains_head, contains_tail,
  eq-false_of_contains, nat_beq,
}
use multi_tenant_rag_applica.Python.Text.{Text}
use multi_tenant_rag_applica.Python.Exec.{ok, for_each, ◌>>=◌}
use multi_tenant_rag_applica.Python.Dict.{keys, lookup, has_key, insert, lookup-insert}
use multi_tenant_rag_applica.Python.Dict.Members.{contains-keys, nodup-insert}
use multi_tenant_rag_applica.Mappings.Inverse.{lookup-claim_all, claim_all, drop_all}
use multi_tenant_rag_applica.Mappings.ParagraphMap.{
  ParagraphKey, ParagraphMap, Chunks, chunks_at, set_paragraph, add_paragraph, is_free_for,
}
use multi_tenant_rag_applica.Mappings.ParagraphMap.Loops.{for_each-set_owner}
use multi_tenant_rag_applica.Mappings.ParagraphMap.Ownership.{replaced-IsOwned}
use multi_tenant_rag_applica.Mappings.ParagraphMap.Popping.{IsValid}
use multi_tenant_rag_applica.Mappings.ParagraphMap.Validation.{Fits}

-- What one round of the loop over the new paragraphs leaves.
abbrev added : Text → ℕ → List Text → ParagraphMap → ParagraphMap
added document p ids m = record m {
  paragraphs = insert (document, p) ids m.paragraphs;
  chunk_owners = claim_all (document, p) ids m.chunk_owners;
}

pub add_all : Text → Chunks → ParagraphMap → ParagraphMap
add_all document [] m = m
add_all document ((p, ids) ∷ d) m = add_all document d (added document p ids m)

pub for_each-add :
    (document : Text) (d : Chunks) (m : ParagraphMap)
    → for_each (add_paragraph document) d m ≡ (ok tt, add_all document d m)
unfolding for_each add_all add_paragraph set_paragraph ◌>>=◌
for_each-add document [] m = refl
for_each-add document ((p, ids) ∷ d) m =
    rw
      (for_each-set_owner (document, p) ids
        (record m { paragraphs = insert (document, p) ids m.paragraphs }))
      (for_each-add document d (added document p ids m))

-- No paragraph of the document is there yet, and no chunk of the lists has an owner.
pub record Awaits (document : Text) (d : Chunks) (m : ParagraphMap) : Type 0 where
  pub absent : (p : ℕ) → has_key p d ≡ true → lookup (document, p) m.paragraphs ≡ none
  pub unowned :
      (p : ℕ) (ids : List Text) (c : Text)
      → lookup p d ≡ some ids
      → contains c ids ≡ true
      → lookup c m.chunk_owners ≡ none

module _ (within : List Text) (p : ℕ) (ids : List Text) (d : Chunks)
    (f : Fits within ((p, ids) ∷ d)) where
  head-ne : (q : ℕ) → has_key q d ≡ true → nat_beq p q ≡ false
  unfolding nodup
  head-ne q h =
      eq-false_of_contains p q (keys d) (ground (arith, f.unique))
        (ground (arith, contains-keys q d))

  lookup-head : lookup p ((p, ids) ∷ d) ≡ some ids
  unfolding lookup
  lookup-head = ground arith

  lookup-tail : (q : ℕ) (js : List Text) → lookup q d ≡ some js → lookup q ((p, ids) ∷ d) ≡ some js
  unfolding lookup
  lookup-tail q js e = ground (arith, head-ne q)

  tail-Fits : Fits within d
  unfolding nodup
  tail-Fits = record {
    unique = ground (arith, f.unique);
    distinct = λ q js e. f.distinct q js (lookup-tail q js e);
    seen = λ q js c e i. f.seen q js c (lookup-tail q js e) i;
    disjoint =
        λ q r js ks c e g i j. f.disjoint q r js ks c (lookup-tail q js e) (lookup-tail r ks g) i j;
  }

  module _ (document : Text) (m : ParagraphMap) (a : Awaits document ((p, ids) ∷ d) m) where
    tail-Awaits : Awaits document d (added document p ids m)
    unfolding lookup
    tail-Awaits = record {
      absent = λ q h. ground (
        arith,
        lookup-insert (document, p) (document, q) ids m.paragraphs,
        head-ne q h,
        a.absent q,
      );
      unowned = λ q js c e i. ground (
        arith,
        lookup-claim_all (document, p) ids c m.chunk_owners,
        f.disjoint p q ids js c lookup-head (lookup-tail q js e),
        head-ne q,
        a.unowned q js c (lookup-tail q js e) i,
      );
    }

    free_ids :
        (rest : List Text)
        → ((c : Text) → contains c rest ≡ true → contains c ids ≡ true)
        → all (is_free_for m (document, p)) rest ≡ true
    unfolding contains is_free_for
    free_ids [] g = refl
    free_ids (c ∷ rest) g =
        let none_yet : lookup c m.chunk_owners ≡ none =
          a.unowned p ids c lookup-head (g c (contains_head c rest)) in
        rw (none_yet, is_free_for) (free_ids rest (λ x h. g x (contains_tail x c rest h)))

    added-IsValid : IsValid m → IsValid (added document p ids m)
    unfolding chunks_at drop_all lookup
    added-IsValid v =
        let here : lookup (document, p) m.paragraphs ≡ none = a.absent p (ground arith) in
        record {
          owned =
              rw (here, chunks_at, drop_all) at
                (replaced-IsOwned m v.owned (document, p) ids (f.distinct p ids lookup-head)
                  (free_ids ids (λ c h. h)));
          unique = nodup-insert (document, p) ids m.paragraphs v.unique;
        }

pub add_all-IsValid :
    (document : Text) (within : List Text) (d : Chunks) (m : ParagraphMap)
    → Fits within d
    → Awaits document d m
    → IsValid m
    → IsValid (add_all document d m)
unfolding add_all
add_all-IsValid document within [] m f a v = v
add_all-IsValid document within ((p, ids) ∷ d) m f a v =
    add_all-IsValid document within d (added document p ids m) (tail-Fits within p ids d f)
      (tail-Awaits within p ids d f document m a) (added-IsValid within p ids d f document m a v)

pub paragraphs-add_all :
    (document : Text) (within : List Text) (d : Chunks) (m : ParagraphMap) (k : ParagraphKey)
    → Fits within d
    → lookup k (add_all document d m).paragraphs
      ≡ (if k.0 == document && has_key k.1 d then lookup k.1 d else lookup k m.paragraphs)
unfolding add_all lookup
paragraphs-add_all document within [] m k f = ground arith
paragraphs-add_all document within ((p, ids) ∷ d) m k f = ground (
  arith,
  paragraphs-add_all document within d (added document p ids m) k (tail-Fits within p ids d f),
  lookup-insert (document, p) k ids m.paragraphs,
  head-ne within p ids d f k.1,
  eq_iff document k.0,
  eq_iff k.0 document,
)
