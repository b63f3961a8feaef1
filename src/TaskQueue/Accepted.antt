-- ===== src/TaskQueue/Accepted.antt =====
-- The tasks that `enqueue` of backend/task_queue.py accepts, and which steps lose a record.
use multi_tenant_rag_applica.Prelude.{
  ℕ, ◌≡◌, refl, Bool, true, ◌||◌, Option, none, ◌==◌, eq_iff, eq_refl, Option-cases, ◌⊎◌, some,
  List, [], ◌∷◌, all, arith, nat_eq, list_eq, contains, inl, inr, Bool-cases,
}
use multi_tenant_rag_applica.Python.Text.{Text}
use multi_tenant_rag_applica.Python.Object.{Object}
use multi_tenant_rag_applica.Python.Exec.{
  Error, ok, err, type_error, runtime_error, Result-cases, ◌>>=◌,
}
use multi_tenant_rag_applica.Python.Dict.{lookup, has_key, lookup-insert}
use multi_tenant_rag_applica.Mappings.Common.{required_identifier, validated_user_id}
use multi_tenant_rag_applica.TaskQueue.{
  TaskQueue, started, Item, stop, task, new_record, Outcome, waiting, working, ended, died, take,
  take_item, set_worker, finish, begin_close, stop_workers, end_close, items_of, accept, enqueue,
  Event, enqueued, taken, ended_work, close_begun, workers_stopped, close_ended, step,
}
use multi_tenant_rag_applica.TaskQueue.Retention.{is_completed}
use multi_tenant_rag_applica.TaskQueue.Invariant.{Inv}
use multi_tenant_rag_applica.TaskQueue.Finishing.{lookup-finish}

-- The task that a step accepts: `enqueue` returns its identifier.
unfoldable pub accepted_by : TaskQueue → Event → Option Text
accepted_by q (enqueued user_id operation is_callable task_id now) =
    elim (enqueue user_id operation is_callable task_id now q).0 [ ok id ↦ some id | err x ↦ none ]
accepted_by q _ = none

-- The tasks that the steps of a run accept.
unfoldable pub accepted : TaskQueue → List Event → List Text
unfolding accepted_by
accepted q [] = []
accepted q (e ∷ es) =
    let later = accepted (step q e) es in
    elim (accepted_by q e) [ none ↦ later | some id ↦ id ∷ later ]

-- The record of the task is one with an outcome, at some point of the run.
unfoldable pub was_done : TaskQueue → List Event → Text → Bool
was_done q [] id = is_completed id q.records
was_done q (e ∷ es) id = is_completed id q.records || was_done (step q e) es id

-- `enqueue` accepts the task while the queue is open, or raises and leaves it as it was.
pub enqueue-accept :
    (user_id operation : Object) (is_callable : Bool) (id : Text) (now : ℕ) (q : TaskQueue)
    → ((user name : Text) × (q.accepting ≡ true)
        × ((enqueue user_id operation is_callable id now q).1 ≡ accept user name id now q)
        × ((enqueue user_id operation is_callable id now q).0 ≡ ok id))
      ⊎ (((enqueue user_id operation is_callable id now q).1 ≡ q)
          × ((x : Error) × ((enqueue user_id operation is_callable id now q).0 ≡ err x)))
unfolding enqueue ◌>>=◌
enqueue-accept user_id operation is_callable id now q =
    elim (Result-cases (validated_user_id user_id)) [
      | inr (x, e) ↦ inr (rw e, (x, rw e))
      | inl (user, e) ↦ elim (Result-cases (required_identifier operation)) [
        | inr (x, f) ↦ inr (rw (e, f), (x, rw (e, f)))
        | inl (name, f) ↦ elim (Bool-cases is_callable) [
          | inr g ↦ inr (rw (e, f, g), (type_error, rw (e, f, g)))
          | inl g ↦ elim (Bool-cases q.accepting) [
            | inr h ↦ inr (rw (e, f, g, h), (runtime_error, rw (e, f, g, h)))
            | inl h ↦ inl (user, name, h, rw (e, f, g, h), rw (e, f, g, h))
          ]
        ]
      ]
    ]

finish-has_key :
    (user : Text) (now : ℕ) (o : Outcome) (q : TaskQueue) (j : Text)
    → Inv q
    → has_key j q.records ≡ true
    → (has_key j (finish user now o q).records || is_completed j q.records) ≡ true
unfolding finish
finish-has_key user now o q j inv h = elim (Option-cases (lookup user q.workers)) [
  | inl e ↦ rw (e, finish) (ground arith)
  | inr (ended, e) ↦ rw (e, finish) (ground arith)
  | inr (died, e) ↦ rw (e, finish) (ground arith)
  | inr (waiting, e) ↦ rw (e, finish) (ground arith)
  | inr (working id, e) ↦ elim (Option-cases (lookup id q.records)) [
    | inl n ↦ absurd (ground (arith, inv.runs_one user id, eq_refl id))
    | inr (r, f) ↦ ground (arith, lookup-finish user id now o q inv e r f j, inv.retained.listed j)
  ]
]

take_item-has_key :
    (user : Text) (now : ℕ) (item : Item) (rest : List Item) (q : TaskQueue) (j : Text)
    → has_key j q.records ≡ true
    → has_key j (take_item user now item rest q).records ≡ true
unfolding take_item set_worker
take_item-has_key user now stop rest q j h = h
take_item-has_key user now (task id) rest q j h = elim (Option-cases (lookup id q.records)) [
  | inl e ↦ rw (e, take_item) h
  | inr (r, e) ↦
      rw (e, take_item)
        (ground (arith, h, lookup-insert id j (started now r) q.records, eq_iff id j))
]

take-has_key :
    (user : Text) (now : ℕ) (q : TaskQueue) (j : Text)
    → has_key j q.records ≡ true
    → has_key j (take user now q).records ≡ true
unfolding take
take-has_key user now q j h = elim (Option-cases (lookup user q.workers)) [
  | inl e ↦ rw (e, take) h
  | inr (ended, e) ↦ rw (e, take) h
  | inr (died, e) ↦ rw (e, take) h
  | inr (working id, e) ↦ rw (e, take) h
  | inr (waiting, e) ↦ rw (e, take) (next (items_of user q))
]
  where
    next :
        (items : List Item)
        → has_key j
            (elim items as (λ x. TaskQueue) [
              | [] ↦ q
              | item ∷ rest ↦ take_item user now item rest q
            ]).records
          ≡ true
    next [] = h
    next (item ∷ rest) = take_item-has_key user now item rest q j h

accept-has_key :
    (user name id : Text) (now : ℕ) (q : TaskQueue) (j : Text)
    → has_key j (accept user name id now q).records ≡ (id == j || has_key j q.records)
unfolding accept
accept-has_key user name id now q j =
    ground (arith, lookup-insert id j (new_record user name id now) q.records)

-- A step loses no record but one that had an outcome.
pub step-has_key :
    (q : TaskQueue) (e : Event) (j : Text)
    → Inv q
    → has_key j q.records ≡ true
    → (has_key j (step q e).records || is_completed j q.records) ≡ true
unfolding step begin_close stop_workers end_close
step-has_key q (enqueued user_id operation is_callable task_id now) j inv h =
    elim (enqueue-accept user_id operation is_callable task_id now q) [
      | inr (e, (x, g)) ↦ rw e (ground arith)
      | inl (user, name, a, e, g) ↦ rw e (ground (arith, accept-has_key user name task_id now q j))
    ]
step-has_key q (taken user now) j inv h = ground (arith, take-has_key user now q j h)
step-has_key q (ended_work user now o) j inv h = finish-has_key user now o q j inv h
step-has_key q close_begun j inv h = ground arith
step-has_key q workers_stopped j inv h = ground arith
step-has_key q close_ended j inv h = ground arith

pub step-accepted_by :
    (q : TaskQueue) (e : Event) (id : Text)
    → accepted_by q e ≡ some id
    → has_key id (step q e).records ≡ true
unfolding step accepted_by
step-accepted_by q (enqueued user_id operation is_callable task_id now) id h =
    elim (enqueue-accept user_id operation is_callable task_id now q) [
      | inr (e, (x, g)) ↦ absurd (ground (arith, g, h))
      | inl (user, name, a, e, g) ↦
          let same : task_id ≡ id = ground (arith, g, h) in
          rw (e, accept-has_key user name task_id now q id, same) (ground (arith, eq_refl id))
    ]
step-accepted_by q (taken user now) id h = absurd (ground arith)
step-accepted_by q (ended_work user now o) id h = absurd (ground arith)
step-accepted_by q close_begun id h = absurd (ground arith)
step-accepted_by q workers_stopped id h = absurd (ground arith)
step-accepted_by q close_ended id h = absurd (ground arith)

pub all_contained :
    (test : Text → Bool) (xs : List Text)
    → ((x : Text) → contains x xs ≡ true → test x ≡ true)
    → all test xs ≡ true
unfolding contains
all_contained test [] h = refl
all_contained test (x ∷ xs) h =
    ground (arith, h x, eq_refl x, all_contained test xs (λ y c. h y (ground (arith, c))))
