-- ===== src/Mappings/ParagraphMap/Ownership.antt =====
-- The inverse index of backend/mappings/paragraph_map.py agrees with the lists of chunk IDs, so
-- that no `del` of an owner misses its key.
use multi_tenant_rag_applica.Prelude.{
  ◌≡◌, refl, true, some, List, [], ◌∷◌, all, arith, nat_eq, list_eq, pair_eq, eq_iff, contains,
  nodup, Option-cases, inl, inr,
}
use multi_tenant_rag_applica.Python.Text.{Text}
use multi_tenant_rag_applica.Python.Exec.{ok, ◌>>=◌}
use multi_tenant_rag_applica.Python.Dict.{lookup, insert, delete}
use multi_tenant_rag_applica.Mappings.Inverse.{
  IsInverse, drop_all, claim_all, popped-IsInverse, claimed-IsInverse,
}
use multi_tenant_rag_applica.Mappings.ParagraphMap.{
  ParagraphKey, ParagraphMap, set_paragraph, is_free_for, chunks_at, pop_paragraph, paragraph,
  assign_chunks,
}
use multi_tenant_rag_applica.Mappings.ParagraphMap.Loops.{
  Owned, for_each-del_unless, for_each-del_owner, for_each-set_owner,
}

abbrev pub IsOwned : ParagraphMap → Type 0
IsOwned m = IsInverse m.paragraphs m.chunk_owners

module _ (m : ParagraphMap) (key : ParagraphKey) (ids : List Text) where
  -- What `pop` of a paragraph and the loop after it leave.
  abbrev pub popped : ParagraphMap
  popped = record m {
    paragraphs = delete key m.paragraphs;
    chunk_owners = drop_all [] ids m.chunk_owners;
  }

  -- What `set_chunks` leaves.
  abbrev pub replaced : ParagraphMap
  replaced = record m {
    paragraphs = insert key ids m.paragraphs;
    chunk_owners = claim_all key ids (drop_all ids (chunks_at key m) m.chunk_owners);
  }

module _ (m : ParagraphMap) (o : IsOwned m) (key : ParagraphKey) (ids : List Text)
    (at : lookup key m.paragraphs ≡ some ids) where
  Owned-ids :
      (kept rest : List Text)
      → ((c : Text) → contains c rest ≡ true → contains c ids ≡ true)
      → Owned kept m.chunk_owners rest
  unfolding contains
  Owned-ids kept [] f = tt
  Owned-ids kept (c ∷ rest) f = (
    ground (arith, o.index key c, f c, eq_iff c c),
    Owned-ids kept rest (λ d h. f d (ground arith)),
  )

  -- Popping a paragraph that is there succeeds, and keeps the index.
  pub pop_paragraph-popped : pop_paragraph key m ≡ (ok tt, popped m key ids)
  unfolding pop_paragraph paragraph ◌>>=◌
  pop_paragraph-popped =
      rw (at, paragraph)
        (for_each-del_owner ids (record m { paragraphs = delete key m.paragraphs })
          (o.distinct key ids at) (Owned-ids [] ids (λ c h. h)))

  pub popped-IsOwned : IsOwned (popped m key ids)
  popped-IsOwned = popped-IsInverse m.paragraphs m.chunk_owners o key ids at

module _ (m : ParagraphMap) (o : IsOwned m) (key : ParagraphKey) (ids : List Text) where
  Owned-children : Owned ids m.chunk_owners (chunks_at key m)
  unfolding chunks_at
  Owned-children = elim (Option-cases (lookup key m.paragraphs)) [
    | inl e ↦ rw (e, chunks_at) tt
    | inr (js, e) ↦ rw (e, chunks_at) (Owned-ids m o key js e ids js (λ c h. h))
  ]

  nodup-children : nodup (chunks_at key m) ≡ true
  unfolding chunks_at nodup
  nodup-children = elim (Option-cases (lookup key m.paragraphs)) [
    | inl e ↦ rw (e, chunks_at) refl
    | inr (js, e) ↦ rw (e, chunks_at) (o.distinct key js e)
  ]

  pub assign_chunks-replaced : assign_chunks key ids m ≡ (ok tt, replaced m key ids)
  unfolding assign_chunks set_paragraph ◌>>=◌
  assign_chunks-replaced = rw (
    for_each-del_unless ids (chunks_at key m) m nodup-children Owned-children,
    for_each-set_owner key ids
        (record m { chunk_owners = drop_all ids (chunks_at key m) m.chunk_owners }),
  )

  pub replaced-IsOwned :
      nodup ids ≡ true → all (is_free_for m key) ids ≡ true → IsOwned (replaced m key ids)
  unfolding is_free_for chunks_at
  replaced-IsOwned n free = claimed-IsInverse m.paragraphs m.chunk_owners o key ids n free
