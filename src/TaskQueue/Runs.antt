-- ===== src/TaskQueue/Runs.antt =====
-- Any sequence of the steps of backend/task_queue.py, from the construction of the queue.
use multi_tenant_rag_applica.Prelude.{
  ◌≡◌, refl, Bool, true, ◌&&◌, ◌||◌, eq_iff, Option-cases, not, some, List, [], ◌∷◌, all, arith,
  nat_eq, list_eq, contains, nodup, inl, inr, Bool-cases,
}
use multi_tenant_rag_applica.Python.Text.{Text}
use multi_tenant_rag_applica.Python.Object.{Object, int, pos, negsuc}
use multi_tenant_rag_applica.Python.Exec.{ok}
use multi_tenant_rag_applica.Python.Dict.{lookup, has_key}
use multi_tenant_rag_applica.TaskQueue.{
  TaskQueue, TaskRecord, items_of, init, has_ended, Event, enqueued, taken, ended_work, close_begun,
  workers_stopped, close_ended, step, run,
}
use multi_tenant_rag_applica.TaskQueue.Retention.{pending_of}
use multi_tenant_rag_applica.TaskQueue.Invariant.{accept-Inv}
use multi_tenant_rag_applica.TaskQueue.Taking.{take-Inv}
use multi_tenant_rag_applica.TaskQueue.Finishing.{finish-Inv}
use multi_tenant_rag_applica.TaskQueue.Staffed.{stops_last, has_stop, accept-IsStaffed}
use multi_tenant_rag_applica.TaskQueue.Closing.{take-IsStaffed, finish-IsStaffed}
use multi_tenant_rag_applica.TaskQueue.Stopping.{
  IsSound, begin_close-IsSound, stop_workers-IsSound, end_close-IsSound, all_completed,
}
use multi_tenant_rag_applica.TaskQueue.Accepted.{
  accepted_by, accepted, all_contained, was_done, enqueue-accept, step-has_key, step-accepted_by,
}

-- The identifier of an enqueued task is new: `uuid4` does not repeat itself.
abbrev pub is_new : TaskQueue → Event → Bool
is_new q (enqueued user_id operation is_callable task_id now) = not (has_key task_id q.records)
is_new q _ = true

-- ... in each of the steps.
abbrev pub all_new : TaskQueue → List Event → Bool
all_new q [] = true
all_new q (e ∷ es) = is_new q e && all_new (step q e) es

step-IsSound : (q : TaskQueue) (e : Event) → is_new q e ≡ true → IsSound q → IsSound (step q e)
unfolding step
step-IsSound q (enqueued user_id operation is_callable task_id now) n s =
    elim (enqueue-accept user_id operation is_callable task_id now q) [
      | inr (e, (x, g)) ↦ rw e s
      | inl (user, name, a, e, g) ↦ rw e (
        accept-Inv user name task_id now q s.0 (ground arith),
        accept-IsStaffed user name task_id now q a s.1,
      )
    ]
step-IsSound q (taken user now) n s = (take-Inv user now q s.0, take-IsStaffed user now q s.1)
step-IsSound q (ended_work user now o) n s =
    (finish-Inv user now o q s.0, finish-IsStaffed user now o q s.1)
step-IsSound q close_begun n s = begin_close-IsSound q s
step-IsSound q workers_stopped n s = stop_workers-IsSound q s
step-IsSound q close_ended n s = end_close-IsSound q s

run-IsSound :
    (q : TaskQueue) (es : List Event) → all_new q es ≡ true → IsSound q → IsSound (run q es)
unfolding run
run-IsSound q [] n s = s
run-IsSound q (e ∷ es) n s =
    run-IsSound (step q e) es (ground arith) (step-IsSound q e (ground arith) s)

init-IsSound : (limit : Object) (q : TaskQueue) → init limit ≡ ok q → IsSound q
unfolding init items_of lookup pending_of contains nodup stops_last has_stop
init-IsSound (int (pos n)) q h =
    let built : q ≡ record {
      records = [];
      completed_order = [];
      queues = [];
      workers = [];
      max_completed_records = n;
      accepting = true;
    } =
      ground arith in
    rw built (
      record {
        waits = λ u j. refl;
        runs_one = λ u j. refl;
        once = λ u. refl;
        retained = record {
          listed = λ j. refl;
          once = refl;
          settled = λ j r e d. absurd (ground arith);
        };
        bounded = omega arith;
        room = ground arith;
      },
      record { staffed = λ u h. absurd (ground arith); last = λ u. refl; unstopped = λ b u. refl },
    )
init-IsSound (int (negsuc n)) q h = absurd (ground arith)
init-IsSound _ q h = absurd (ground arith)

run-has_key :
    (q : TaskQueue) (es : List Event) (id : Text)
    → all_new q es ≡ true
    → IsSound q
    → has_key id q.records ≡ true
    → (has_key id (run q es).records || was_done q es id) ≡ true
unfolding run was_done
run-has_key q [] id n s h = ground arith
run-has_key q (e ∷ es) id n s h = elim (Bool-cases (has_key id (step q e).records)) [
  | inl b ↦
      ground
        (arith, run-has_key (step q e) es id (ground arith) (step-IsSound q e (ground arith) s) b)
  | inr b ↦ ground (arith, step-has_key q e id s.0 h, b)
]

run-accepted :
    (q : TaskQueue) (es : List Event) (id : Text)
    → all_new q es ≡ true
    → IsSound q
    → contains id (accepted q es) ≡ true
    → (has_key id (run q es).records || was_done q es id) ≡ true
unfolding run was_done accepted contains
run-accepted q [] id n s h = absurd (ground arith)
run-accepted q (e ∷ es) id n s h =
    let next = step-IsSound q e (ground arith) s in
    let rest : all_new (step q e) es ≡ true = ground arith in
    elim (Bool-cases (contains id (accepted (step q e) es))) [
      | inl b ↦ ground (arith, run-accepted (step q e) es id rest next b)
      | inr b ↦ elim (Option-cases (accepted_by q e)) [
        | inl g ↦ absurd (ground arith)
        | inr (j, g) ↦
            let same : j ≡ id = ground (arith, eq_iff j id) in
            ground (
              arith,
              run-has_key (step q e) es id rest next (rw (← same) (step-accepted_by q e j g)),
            )
      ]
    ]

-- Every task that the run accepts is recorded at the end, or had an outcome before.
abbrev pub AreKept : TaskQueue → List Event → Type 0
AreKept q es = all (λ id. has_key id (run q es).records || was_done q es id) (accepted q es) ≡ true

-- Whatever steps follow the construction of the queue, when no two tasks get the same identifier: a
-- user's queue holds, each once, exactly the tasks recorded as the user's, queued and not completed;
-- a worker runs exactly the one recorded as its user's, running and not completed; the records with
-- an outcome are those of the order of completion, are completed, and the order names each once and
-- is no longer than the limit; a user with a queued task has a worker that has not returned; no task
-- is behind a `_STOP`; and every task whose identifier `enqueue` has returned is recorded at the end,
-- or had an outcome at some point of the run.
pub run_queue-IsSound :
    (limit : Object) (q : TaskQueue) (es : List Event)
    → init limit ≡ ok q
    → all_new q es ≡ true
    → IsSound (run q es) × AreKept q es
run_queue-IsSound limit q es h n =
    let s = init-IsSound limit q h in
    (
      run-IsSound q es n s,
      all_contained (λ id. has_key id (run q es).records || was_done q es id) (accepted q es)
          (λ id a. run-accepted q es id n s a),
    )

-- Whatever steps follow the construction of the queue, when no two tasks get the same identifier:
-- once every worker has returned, as `close` waits for, the event of every recorded task is set, for
-- which `wait` waits.
pub close_drains :
    (limit : Object) (q : TaskQueue) (es : List Event) (id : Text) (r : TaskRecord)
    → init limit ≡ ok q
    → all_new q es ≡ true
    → all has_ended (run q es).workers ≡ true
    → lookup id (run q es).records ≡ some r
    → r.completed ≡ true
close_drains limit q es id r h n a e =
    all_completed (run q es) (run-IsSound q es n (init-IsSound limit q h)) a id r e
