-- ===== src/TaskQueue/Outcomes.antt =====
-- What `get` of backend/task_queue.py tells of a task: to its user only, and its outcome as soon as
-- the work has ended.
use multi_tenant_rag_applica.Prelude.{
  ℕ, ◌≡◌, ◌↔◌, ◌⊎◌, ap, sym, ◌∙◌, false, ◌==◌, Bool-cases, some, arith, nat_eq, list_eq, eq_iff,
  eq_refl, contains, Option-cases, inl, inr,
}
use multi_tenant_rag_applica.Python.Text.{Text}
use multi_tenant_rag_applica.Python.Object.{Object}
use multi_tenant_rag_applica.Python.Exec.{err, key_error, ok, ◌>>=◌}
use multi_tenant_rag_applica.Python.Dict.{lookup}
use multi_tenant_rag_applica.Mappings.Common.{required_identifier, validated_user_id}
use multi_tenant_rag_applica.TaskQueue.{
  TaskQueue, TaskRecord, working, Outcome, finished, finish, get,
}
use multi_tenant_rag_applica.TaskQueue.Invariant.{Inv}
use multi_tenant_rag_applica.TaskQueue.Finishing.{lookup-finish}

-- With good arguments, `get` returns a record exactly if it is recorded under the identifier and is
-- the user's; otherwise it raises `KeyError`, and it changes nothing.
pub get-exact :
    (task_id user_id : Object) (key user : Text) (q : TaskQueue) (r : TaskRecord)
    → required_identifier task_id ≡ ok key
    → validated_user_id user_id ≡ ok user
    → ((get task_id user_id q).0 ≡ ok r ↔ (lookup key q.records ≡ some r) × (r.user_id ≡ user))
      × (((s : TaskRecord) × (get task_id user_id q ≡ (ok s, q)))
          ⊎ (get task_id user_id q ≡ (err key_error, q)))
unfolding get ◌>>=◌
get-exact task_id user_id key user q r e f = elim (Option-cases (lookup key q.records)) [
  | inl g ↦ ((λ h. absurd (ground arith), λ h. absurd (ground (arith, h.0))), inr (rw (e, f, g)))
  | inr (s, g) ↦ elim (Bool-cases (s.user_id == user)) [
    | inl b ↦ (
      (
        λ h.
            let same : s ≡ r = ground arith in
            (
              g ∙ ap some same,
              ap (λ t. t.user_id) (sym same) ∙ ground (arith, eq_iff s.user_id user),
            ),
        λ h. ground (arith, h.0),
      ),
      inl (s, rw (e, f, g, b)),
    )
    | inr b ↦ (
      (
        λ h. absurd (ground arith),
        λ h.
            let same : s ≡ r = ground (arith, h.0) in
            absurd (ground (arith, ap (λ t. t.user_id) same, h.1, eq_iff s.user_id user)),
      ),
      inr (rw (e, f, g, b)),
    )
  ]
]

-- In a sound queue, when the work of a user ends, the record of the task is there and has what the
-- end of the work says: the outcome, or, after a fatal exception, the status of before with its
-- event set.
pub finish-retained :
    (user id : Text) (now : ℕ) (o : Outcome) (q : TaskQueue) (r : TaskRecord)
    → Inv q
    → lookup user q.workers ≡ some (working id)
    → lookup id q.records ≡ some r
    → lookup id (finish user now o q).records ≡ some (finished now o r)
finish-retained user id now o q r inv w e =
    let fresh : contains id q.completed_order ≡ false =
      ground (arith, inv.runs_one user id, inv.retained.listed id, eq_refl id) in
    ground (arith, lookup-finish user id now o q inv w r e id fresh, eq_refl id)
