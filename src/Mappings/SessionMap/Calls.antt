-- ===== src/Mappings/SessionMap/Calls.antt =====
-- The methods of backend/mappings/session_map.py on a map whose index is exact.
use multi_tenant_rag_applica.Prelude.{
  ◌≡◌, refl, true, List, [], ◌∷◌, ◌++◌, ◌⊎◌, inl, inr, arith, ◌==◌, nat_eq, list_eq, contains,
  nodup, Option-cases, Bool-cases, eq-false_of_contains, contains_head, contains_tail,
}
use multi_tenant_rag_applica.Python.Text.{Text}
use multi_tenant_rag_applica.Python.Object.{Object}
use multi_tenant_rag_applica.Python.Exec.{
  Result, Error, ok, err, key_error, value_error, for_each, Result-cases, ◌>>=◌,
}
use multi_tenant_rag_applica.Python.Dict.{lookup, has_key, insert, delete, lookup-delete}
use multi_tenant_rag_applica.Mappings.Common.{required_identifier, required_uuid}
use multi_tenant_rag_applica.Mappings.Inverse.{
  IsInverse, drop_all, popped-IsInverse, append-IsInverse, fresh-IsInverse, empty-IsInverse,
}
use multi_tenant_rag_applica.Mappings.SessionMap.{
  SessionMap, init, del_owner, create_session, add_conversation, delete_session,
}

abbrev pub IsValid : SessionMap → Type 0
IsValid m = IsInverse m.sessions m.conversation_owners

for_each-del_owner :
    (ids : List Text) (m : SessionMap)
    → nodup ids ≡ true
    → ((c : Text) → contains c ids ≡ true → has_key c m.conversation_owners ≡ true)
    → for_each del_owner ids m
      ≡ (ok tt, record m { conversation_owners = drop_all [] ids m.conversation_owners })
unfolding for_each del_owner drop_all nodup contains ◌>>=◌
for_each-del_owner [] m n h = refl
for_each-del_owner (c ∷ ids) m n h = rw (h c (contains_head c ids)) (
    for_each-del_owner ids (record m { conversation_owners = delete c m.conversation_owners })
      (ground arith)
      (λ x i.
        rw (lookup-delete c x m.conversation_owners, eq-false_of_contains c x ids (ground arith) i)
          (h x (contains_tail x c ids i))))

-- The call raises and changes nothing, or it returns and leaves a valid map.
abbrev pub Settles {ℓ} : {A : Type ℓ} → SessionMap → Result A × SessionMap → Type ℓ
Settles {A = A} m r =
    ((e : Error) × (r ≡ (err e, m))) ⊎ ((a : A) × (m' : SessionMap) × (r ≡ (ok a, m')) × IsValid m')

module _ (m : SessionMap) (v : IsValid m) where
  create_session-Settles : (o : Object) → Settles m (create_session o m)
  unfolding create_session ◌>>=◌
  create_session-Settles o = elim (Result-cases (required_identifier o)) [
    | inr (x, e) ↦ inl (x, rw e)
    | inl (key, e) ↦ elim (Option-cases (lookup key m.sessions)) [
      | inl f ↦ inr (
        tt,
        record m { sessions = insert key [] m.sessions },
        rw (e, f),
        fresh-IsInverse m.sessions m.conversation_owners v key f,
      )
      | inr (ids, f) ↦ inl (value_error, rw (e, f))
    ]
  ]

  add_conversation-Settles : (o c : Object) → Settles m (add_conversation o c m)
  unfolding add_conversation lookup ◌>>=◌
  add_conversation-Settles o c = elim (Result-cases (required_identifier o)) [
    | inr (x, e) ↦ inl (x, rw e)
    | inl (key, e) ↦ elim (Result-cases (required_uuid c)) [
      | inr (x, f) ↦ inl (x, rw (e, f))
      | inl (child, f) ↦ elim (Option-cases (lookup key m.sessions)) [
        | inl g ↦ inl (key_error, rw (e, f, g))
        | inr (ids, g) ↦ elim (Option-cases (lookup child m.conversation_owners)) [
          | inl n ↦ inr (
            tt,
            record m {
              sessions = insert key (ids ++ child ∷ []) m.sessions;
              conversation_owners = insert child key m.conversation_owners;
            },
            rw (e, f, g, n),
            append-IsInverse m.sessions m.conversation_owners v key ids child g n,
          )
          | inr (owner, n) ↦ elim (Bool-cases (owner == key)) [
            | inl q ↦ inr (tt, m, rw (e, f, g, n, q), v)
            | inr q ↦ inl (value_error, rw (e, f, g, n, q))
          ]
        ]
      ]
    ]
  ]

  delete_session-Settles : (o : Object) → Settles m (delete_session o m)
  unfolding delete_session lookup ◌>>=◌
  delete_session-Settles o = elim (Result-cases (required_identifier o)) [
    | inr (x, e) ↦ inl (x, rw e)
    | inl (key, e) ↦ elim (Option-cases (lookup key m.sessions)) [
      | inl f ↦ inl (key_error, rw (e, f))
      | inr (ids, f) ↦ inr (
        ids,
        record m {
          sessions = delete key m.sessions;
          conversation_owners = drop_all [] ids m.conversation_owners;
        },
        rw (
          e,
          f,
          for_each-del_owner ids (record m { sessions = delete key m.sessions })
              (v.distinct key ids f) (λ c i. ground (arith, v.index key c)),
        ),
        popped-IsInverse m.sessions m.conversation_owners v key ids f,
      )
    ]
  ]

pub data Call : Type 0 where
  create remove : Object → Call
  add : Object → Object → Call

pub perform : SessionMap → Call → SessionMap
perform m (create session_id) = (create_session session_id m).1
perform m (remove session_id) = (delete_session session_id m).1
perform m (add session_id conversation_id) = (add_conversation session_id conversation_id m).1

-- An exception ends its own call only.
pub run : SessionMap → List Call → SessionMap
run m [] = m
run m (c ∷ cs) = run (perform m c) cs

settled {ℓ} :
    {A : Type ℓ} (m : SessionMap) (r : Result A × SessionMap)
    → IsValid m
    → Settles m r
    → IsValid r.1
settled m r v (inl (x, e)) = rw e v
settled m r v (inr (a, m', e, w)) = rw e w

perform-IsValid : (m : SessionMap) (c : Call) → IsValid m → IsValid (perform m c)
unfolding perform
perform-IsValid m (create o) v = settled m (create_session o m) v (create_session-Settles m v o)
perform-IsValid m (remove o) v = settled m (delete_session o m) v (delete_session-Settles m v o)
perform-IsValid m (add o c) v =
    settled m (add_conversation o c m) v (add_conversation-Settles m v o c)

run-IsValid : (m : SessionMap) (cs : List Call) → IsValid m → IsValid (run m cs)
unfolding run
run-IsValid m [] v = v
run-IsValid m (c ∷ cs) v = run-IsValid (perform m c) cs (perform-IsValid m c v)

-- Whatever methods are called on a new session map, a conversation is listed by a session exactly
-- when the index names that session, and no session lists it twice.
pub run_sessions-IsValid :
    (user_id : Object) (cs : List Call) (m : SessionMap) → init user_id ≡ ok m → IsValid (run m cs)
unfolding init
run_sessions-IsValid user_id cs m h =
    let p : m.sessions ≡ [] = ground arith in
    let o : m.conversation_owners ≡ [] = ground arith in
    run-IsValid m cs (rw (p, o) empty-IsInverse)
