-- ===== src/Config/Isolation.antt =====
-- The collections of two tenants are physically distinct: `get_collection_name` of
-- backend/config.py loses neither the user nor the collection type.
use multi_tenant_rag_applica.Prelude.{
  ◌≡◌, refl, ap, true, [], ◌∷◌, ◌++◌, arith, All, All-all, all, ltb, drop,
}
use multi_tenant_rag_applica.Python.Text.{Text, text}
use multi_tenant_rag_applica.Python.Object.{Object, str}
use multi_tenant_rag_applica.Python.Exec.{ok, bind-eq-ok}
use multi_tenant_rag_applica.Config.Base32.{utf8, user_token}
use multi_tenant_rag_applica.Config.Base32.Injective.{raw, raw_injective, IsByte}
use multi_tenant_rag_applica.Config.Base32.Stripped.{IsLetter, raw-letters, stripped-raw}
use multi_tenant_rag_applica.Config.{
  is_user_id_char, CollectionType, conversations, knowledge_facts, policy, suffix, physical_name,
  checked_user_id, checked_collection_type, get_collection_name,
}

-- A user identifier is ASCII, so that its bytes are its characters.
utf8-user_id : (u : Text) → All (λ c. is_user_id_char c ≡ true) u → utf8 u ≡ u
unfolding utf8 is_user_id_char
utf8-user_id [] h = refl
utf8-user_id (c ∷ u) h =
    let small : ltb c 128 ≡ true = ground arith in rw (small, utf8-user_id u h.1)

user_id-bytes : (u : Text) → All (λ c. is_user_id_char c ≡ true) u → All IsByte u
unfolding is_user_id_char
user_id-bytes [] h = tt
user_id-bytes (c ∷ u) h = (ground arith, user_id-bytes u h.1)

token-raw : (u : Text) → All (λ c. is_user_id_char c ≡ true) u → user_token u ≡ raw u
unfolding user_token
token-raw u h = rw utf8-user_id (stripped-raw u)

-- A text is decided by what stands before its first `_`, and what behind.
split_at_underscore :
    (xs ys s t : Text)
    → All IsLetter xs
    → All IsLetter ys
    → xs ++ 95 ∷ s ≡ ys ++ 95 ∷ t
    → (xs ≡ ys) × (s ≡ t)
split_at_underscore [] [] s t h k e = (refl, cc)
split_at_underscore [] (y ∷ ys) s t h k e = absurd (ground arith)
split_at_underscore (x ∷ xs) [] s t h k e = absurd (ground arith)
split_at_underscore (x ∷ xs) (y ∷ ys) s t h k e =
    let (p, q) = split_at_underscore xs ys s t h.1 k.1 (ground arith) in (cc, q)

suffix_injective : (c d : CollectionType) → suffix c ≡ suffix d → c ≡ d
unfolding suffix
suffix_injective conversations conversations e = refl
suffix_injective knowledge_facts knowledge_facts e = refl
suffix_injective policy policy e = refl
suffix_injective c d e = ground arith

physical_name_injective :
    (u v : Text) (c d : CollectionType)
    → All (λ x. is_user_id_char x ≡ true) u
    → All (λ x. is_user_id_char x ≡ true) v
    → physical_name u c ≡ physical_name v d
    → (u ≡ v) × (c ≡ d)
unfolding physical_name
physical_name_injective u v c d h k e =
    let behind : user_token u ++ (text "_" ++ suffix c) ≡ user_token v ++ (text "_" ++ suffix d) =
      ap (drop 8) e in
    let (p, q) =
      split_at_underscore (raw u) (raw v) (suffix c) (suffix d) (raw-letters u) (raw-letters v)
        (rw (← token-raw u h, ← token-raw v k) behind) in
    (raw_injective u v (user_id-bytes u h) (user_id-bytes v k) p, suffix_injective c d q)

accepted_user_id :
    (o : Object) (u : Text)
    → checked_user_id o ≡ ok u
    → (o ≡ str u) × All (λ x. is_user_id_char x ≡ true) u
unfolding checked_user_id
accepted_user_id (str t) u e =
    let same : t ≡ u = ground arith in
    let matched : all is_user_id_char u ≡ true = ground arith in
    (ap str same, All-all _ is_user_id_char u (λ c h. h) matched)
accepted_user_id _ u e = cc

-- Two calls that return the same collection name were given the same user identifier, and
-- collection types that mean the same one of the three.
pub get_collection_name_injective :
    (user user' kind kind' : Object) (name : Text)
    → get_collection_name user kind ≡ ok name
    → get_collection_name user' kind' ≡ ok name
    → (user ≡ user') × (checked_collection_type kind ≡ checked_collection_type kind')
unfolding get_collection_name
get_collection_name_injective user user' kind kind' name e f =
    let (u, a, e₁) = bind-eq-ok (checked_user_id user) _ e in
    let (c, b, e₂) = bind-eq-ok (checked_collection_type kind) _ e₁ in
    let (v, a', f₁) = bind-eq-ok (checked_user_id user') _ f in
    let (d, b', f₂) = bind-eq-ok (checked_collection_type kind') _ f₁ in
    let (p, h) = accepted_user_id user u a in
    let (q, k) = accepted_user_id user' v a' in
    let (r, s) = physical_name_injective u v c d h k (ground arith) in (cc (p, q, r), cc (b, b', s))
