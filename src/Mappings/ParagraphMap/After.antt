-- ===== src/Mappings/ParagraphMap/After.antt =====
-- What `replace_document` of backend/mappings/paragraph_map.py leaves behind its checks.
use multi_tenant_rag_applica.Prelude.{
  ◌≡◌, true, none, arith, ◌==◌, nat_eq, list_eq, pair_eq, eq_refl, contains, if◌then◌else◌,
  Option-cases, inl, inr,
}
use multi_tenant_rag_applica.Python.Text.{Text}
use multi_tenant_rag_applica.Python.Dict.{lookup}
use multi_tenant_rag_applica.Python.Dict.Members.{lookup-sorted_items}
use multi_tenant_rag_applica.Python.Sorting.{sorted_items}
use multi_tenant_rag_applica.Mappings.Inverse.{all-contains}
use multi_tenant_rag_applica.Mappings.ParagraphMap.{
  ParagraphKey, ParagraphMap, Chunks, is_free_for_document,
}
use multi_tenant_rag_applica.Mappings.ParagraphMap.Popping.{
  IsValid, emptied, for_each-emptied, paragraphs-emptied, owners-emptied,
}
use multi_tenant_rag_applica.Mappings.ParagraphMap.Validation.{Fits-sorted, Passed}
use multi_tenant_rag_applica.Mappings.ParagraphMap.Replacement.{
  Awaits, add_all, add_all-IsValid, paragraphs-add_all,
}

module _ (document : Text) (m : ParagraphMap) (v : IsValid m) (d : Chunks)
    (passed : Passed document m d) where
  -- After the pops, no chunk of the new lists has an owner.
  unowned_now :
      (c : Text)
      → contains c passed.within ≡ true
      → lookup c (emptied document m).chunk_owners ≡ none
  unfolding is_free_for_document
  unowned_now c h = elim (Option-cases (lookup c (emptied document m).chunk_owners)) [
    | inl e ↦ e
    | inr (owner, e) ↦
        let free = all-contains (is_free_for_document m document) passed.within c passed.free h in
        let left = (for_each-emptied document m v).1.owned.index owner c in
        ground (
          arith,
          left,
          free,
          paragraphs-emptied document m v owner,
          owners-emptied document m v c,
          eq_refl owner.0,
          eq_refl owner.1,
        )
  ]

  awaits : Awaits document (sorted_items d) (emptied document m)
  awaits = record {
    absent = λ p h. ground (arith, paragraphs-emptied document m v (document, p), eq_refl document);
    unowned =
        λ p ids c e i. unowned_now c ((Fits-sorted passed.within d passed.fits).seen p ids c e i);
  }

  -- The mutation of `replace_document`, behind its checks.
  unfoldable pub after : ParagraphMap
  after = add_all document (sorted_items d) (emptied document m)

  pub after-IsValid : IsValid after
  unfolding after
  after-IsValid =
      add_all-IsValid document passed.within (sorted_items d) (emptied document m)
        (Fits-sorted passed.within d passed.fits) awaits (for_each-emptied document m v).1

  pub paragraphs-after :
      (k : ParagraphKey)
      → lookup k after.paragraphs
        ≡ (if k.0 == document then lookup k.1 d else lookup k m.paragraphs)
  unfolding after
  paragraphs-after k = ground (
    arith,
    paragraphs-add_all document passed.within (sorted_items d) (emptied document m) k
        (Fits-sorted passed.within d passed.fits),
    paragraphs-emptied document m v k,
    lookup-sorted_items k.1 d passed.fits.unique,
  )
