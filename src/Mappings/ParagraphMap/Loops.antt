-- ===== src/Mappings/ParagraphMap/Loops.antt =====
-- What the loops over chunk IDs of backend/mappings/paragraph_map.py do to the inverse index.
use multi_tenant_rag_applica.Prelude.{
  ◌≡◌, refl, true, false, List, [], ◌∷◌, All, arith, nat_eq, list_eq, pair_eq, eq_iff, contains,
  nodup, if◌then◌else◌, Bool-cases, inl, inr,
}
use multi_tenant_rag_applica.Python.Text.{Text}
use multi_tenant_rag_applica.Python.Exec.{ok, for_each, ◌>>=◌}
use multi_tenant_rag_applica.Python.Dict.{Dict, has_key, insert, delete, lookup-delete}
use multi_tenant_rag_applica.Mappings.Inverse.{drop_all, claim_all}
use multi_tenant_rag_applica.Mappings.ParagraphMap.{
  ParagraphKey, ParagraphMap, del_owner, del_unless, set_owner,
}

abbrev pub Owners : Type 0
Owners = Dict Text ParagraphKey

-- Every chunk of the list that is not kept has an owner.
abbrev pub Owned : List Text → Owners → List Text → Type 0
Owned kept o ids = All (λ c. (if contains c kept then true else has_key c o) ≡ true) ids

Owned-delete :
    (kept : List Text) (x : Text) (o : Owners) (ids : List Text)
    → contains x ids ≡ false
    → Owned kept o ids
    → Owned kept (delete x o) ids
unfolding contains
Owned-delete kept x o [] f h = tt
Owned-delete kept x o (c ∷ ids) f h = (
  ground (arith, lookup-delete x c o, eq_iff c x, eq_iff x c),
  Owned-delete kept x o ids (ground arith) h.1,
)

-- No `del` of the loop misses its key.
pub for_each-del_unless :
    (kept ids : List Text) (m : ParagraphMap)
    → nodup ids ≡ true
    → Owned kept m.chunk_owners ids
    → for_each (del_unless kept) ids m
      ≡ (ok tt, record m { chunk_owners = drop_all kept ids m.chunk_owners })
unfolding for_each del_unless drop_all nodup ◌>>=◌
for_each-del_unless kept [] m n h = refl
for_each-del_unless kept (c ∷ ids) m n h = elim (Bool-cases (contains c kept)) [
  | inl k ↦ rw k (for_each-del_unless kept ids m (ground arith) h.1)
  | inr k ↦
      let there : has_key c m.chunk_owners ≡ true = ground arith in
      rw (k, there)
        (for_each-del_unless kept ids (record m { chunk_owners = delete c m.chunk_owners })
          (ground arith) (Owned-delete kept c m.chunk_owners ids (ground arith) h.1))
]

pub for_each-set_owner :
    (key : ParagraphKey) (ids : List Text) (m : ParagraphMap)
    → for_each (set_owner key) ids m
      ≡ (ok tt, record m { chunk_owners = claim_all key ids m.chunk_owners })
unfolding for_each set_owner claim_all ◌>>=◌
for_each-set_owner key [] m = refl
for_each-set_owner key (c ∷ ids) m =
    for_each-set_owner key ids (record m { chunk_owners = insert c key m.chunk_owners })

pub for_each-del_owner :
    (ids : List Text) (m : ParagraphMap)
    → nodup ids ≡ true
    → Owned [] m.chunk_owners ids
    → for_each del_owner ids m ≡ (ok tt, record m { chunk_owners = drop_all [] ids m.chunk_owners })
unfolding for_each del_owner drop_all nodup contains ◌>>=◌
for_each-del_owner [] m n h = refl
for_each-del_owner (c ∷ ids) m n h = rw h.0 (
    for_each-del_owner ids (record m { chunk_owners = delete c m.chunk_owners }) (ground arith)
      (Owned-delete [] c m.chunk_owners ids (ground arith) h.1))
