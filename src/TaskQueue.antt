-- ===== src/TaskQueue.antt =====
-- backend/task_queue.py: the process-local queue that runs background work serially per user.
-- `asyncio` runs one coroutine at a time, and switches only where one waits, so that the code
-- between two waits is one step. The times, the identifier that `uuid4` returns and the way in
-- which a piece of work ends come with the step.
pub mod Accepted
pub mod Invariant
pub mod Retention
pub mod Closing
pub mod Finishing
pub mod Runs
pub mod Staffed
pub mod Stopping
pub mod Outcomes
pub mod State
pub mod Taking
use multi_tenant_rag_applica.Prelude.{
  ℕ, Bool, true, false, not, ◌&&◌, Option, none, some, List, [], ◌∷◌, ◌++◌, map, all, leb, ltb,
  length, ◌==◌, nat_eq, list_eq, if◌then◌else◌,
}
use multi_tenant_rag_applica.Python.Text.{Text, text, is_empty}
use multi_tenant_rag_applica.Python.Object.{Object, int, pos, negsuc}
use multi_tenant_rag_applica.Python.Exec.{
  Result, ok, err, type_error, value_error, key_error, runtime_error, bind, guard, Exec, lift, gets,
  modify, pure, ◌>>=◌, ◌>>◌,
}
use multi_tenant_rag_applica.Python.Dict.{Dict, keys, lookup, insert, delete}
use multi_tenant_rag_applica.Mappings.Common.{required_identifier, validated_user_id}
pub use State.*

unfoldable pub init : Object → Result TaskQueue
init (int (pos n)) = bind (guard (ltb 0 n) value_error) λ _. ok (record {
  records = [];
  completed_order = [];
  queues = [];
  workers = [];
  max_completed_records = n;
  accepting = true;
})
init (int (negsuc n)) = err value_error
init _ = err type_error

-- `self._queues.setdefault(user, asyncio.Queue())`
unfoldable pub items_of : Text → TaskQueue → List Item
items_of user q = elim (lookup user q.queues) [ none ↦ [] | some items ↦ items ]

-- A worker is created where there is none, or the last one has ended.
unfoldable pub live_worker : Option Worker → Worker
live_worker none = waiting
live_worker (some ended) = waiting
live_worker (some died) = waiting
live_worker (some w) = w

-- The record of a task that is enqueued.
abbrev pub new_record : Text → Text → Text → ℕ → TaskRecord
new_record user operation task_id now = record {
  task_id = task_id;
  user_id = user;
  operation = operation;
  status = queued;
  error_code = none;
  error = none;
  created_at = now;
  completed = false;
  started_at = none;
  finished_at = none;
}

-- What `enqueue` does behind its checks.
unfoldable pub accept : Text → Text → Text → ℕ → TaskQueue → TaskQueue
accept user operation task_id now q = record q {
  records = insert task_id (new_record user operation task_id now) q.records;
  queues = insert user (items_of user q ++ task task_id ∷ []) q.queues;
  workers = insert user (live_worker (lookup user q.workers)) q.workers;
}

unfoldable pub enqueue : Object → Object → Bool → Text → ℕ → Exec TaskQueue Text
unfolding accept
enqueue user_id operation is_callable task_id now = do
  user ← lift (validated_user_id user_id)
  operation_name ← lift (required_identifier operation)
  lift (guard is_callable type_error)
  accepts ← gets (λ q. q.accepting)
  lift (guard accepts runtime_error)
  modify (accept user operation_name task_id now)
  pure task_id

unfoldable pub started : ℕ → TaskRecord → TaskRecord
started now r = record r { status = running; started_at = some now }

unfoldable pub set_worker : Text → Worker → TaskQueue → TaskQueue
set_worker user w q = record q { workers = insert user w q.workers }

-- The worker has its next item: it returns at `_STOP`, and dies at a task that is not recorded,
-- where `self._records[...]` raises.
unfoldable pub take_item : Text → ℕ → Item → List Item → TaskQueue → TaskQueue
unfolding started set_worker
take_item user now stop rest q =
    set_worker user ended (record q { queues = insert user rest q.queues })
take_item user now (task task_id) rest q = elim (lookup task_id q.records) [
  | none ↦ set_worker user died (record q { queues = insert user rest q.queues })
  | some r ↦ record q {
    records = insert task_id (started now r) q.records;
    queues = insert user rest q.queues;
    workers = insert user (working task_id) q.workers;
  }
]

-- From `queue.get()` to the start of the work, when the worker waits and the queue has an item.
unfoldable pub take : Text → ℕ → TaskQueue → TaskQueue
unfolding take_item
take user now q = elim (lookup user q.workers) [
  | some waiting ↦ elim (items_of user q) [ [] ↦ q | item ∷ rest ↦ take_item user now item rest q ]
  | _ ↦ q
]

-- `raised` stands for any `Exception`, of the factory or of the work, `cancelled` for
-- `CancelledError`, and `fatal` for any other `BaseException`, which no `except` names.
pub data Outcome : Type 0 where
  returned raised cancelled fatal : Outcome

unfoldable pub finished : ℕ → Outcome → TaskRecord → TaskRecord
finished now returned r = record r { status = succeeded; finished_at = some now; completed = true }
finished now raised r = record r {
  status = failed;
  error_code = some task_failed;
  error = some public_task_error;
  finished_at = some now;
  completed = true;
}
finished now cancelled r = record r {
  status = failed;
  error_code = some task_cancelled;
  error = some public_task_cancelled;
  finished_at = some now;
  completed = true;
}
finished now fatal r = record r { finished_at = some now; completed = true }

-- `record.status in {"succeeded", "failed"}`
abbrev pub is_done : Status → Bool
is_done succeeded = true
is_done failed = true
is_done _ = false

-- The loop of `_retain_completed`.
unfoldable pub expire : ℕ → List Text → Dict Text TaskRecord → List Text × Dict Text TaskRecord
expire limit [] records = ([], records)
expire limit (id ∷ order) records =
    let rest = expire limit order (delete id records) in
    if ltb limit (length (id ∷ order)) then rest else (id ∷ order, records)

unfoldable pub retain_completed : Text → TaskQueue → TaskQueue
unfolding expire
retain_completed task_id q =
    let (order, records) =
      expire q.max_completed_records (q.completed_order ++ task_id ∷ []) q.records in
    record q { completed_order = order; records = records }

unfoldable pub after_work : Outcome → Worker
after_work cancelled = died
after_work fatal = died
after_work _ = waiting

unfoldable pub set_record : Text → ℕ → Outcome → TaskQueue → TaskQueue
unfolding finished
set_record task_id now o q = elim (lookup task_id q.records) [
  | none ↦ q
  | some r ↦ record q { records = insert task_id (finished now o r) q.records }
]

unfoldable pub retain_done : Text → TaskQueue → TaskQueue
unfolding retain_completed
retain_done task_id q = elim (lookup task_id q.records) [
  | none ↦ q
  | some r ↦ (if is_done r.status then retain_completed task_id q else q)
]

-- From the end of the work to the next `queue.get()`. A worker whose work is cancelled, or ends in a
-- fatal exception, dies.
unfoldable pub finish : Text → ℕ → Outcome → TaskQueue → TaskQueue
unfolding set_record retain_done after_work set_worker
finish user now o q = elim (lookup user q.workers) [
  | some (working task_id) ↦
      set_worker user (after_work o) (retain_done task_id (set_record task_id now o q))
  | _ ↦ q
]

unfoldable pub get : Object → Object → Exec TaskQueue TaskRecord
get task_id user_id = do
  key ← lift (required_identifier task_id)
  user ← lift (validated_user_id user_id)
  found ← gets (λ q. lookup key q.records)
  lift (elim found [
    | none ↦ err key_error
    | some r ↦ bind (guard (r.user_id == user) key_error) λ _. ok r
  ])

-- `close`, from its call to its first wait.
unfoldable pub begin_close : TaskQueue → TaskQueue
begin_close q = if not q.accepting && is_empty q.workers then q else record q { accepting = false }

unfoldable pub is_working : Option Worker → Bool
is_working (some (working task_id)) = true
is_working _ = false

-- `queue.join()` returns: nothing is queued, and no item is being worked on.
unfoldable pub is_drained : TaskQueue → Text → Bool
unfolding is_working
is_drained q user = is_empty (items_of user q) && not (is_working (lookup user q.workers))

unfoldable pub put_stop : Text × List Item → Text × List Item
put_stop (user, items) = (user, items ++ stop ∷ [])

-- `close`, from the joins to the wait for the workers.
unfoldable pub stop_workers : TaskQueue → TaskQueue
unfolding is_drained put_stop
stop_workers q =
    if not q.accepting && all (is_drained q) (keys q.queues)
    then record q { queues = map put_stop q.queues }
    else q

unfoldable pub has_ended : Text × Worker → Bool
has_ended (user, ended) = true
has_ended _ = false

-- `close`, behind the wait for the workers, which raises where one of them died.
pub end_close : TaskQueue → TaskQueue
unfolding has_ended
end_close q =
    if not q.accepting && all has_ended q.workers then record q { workers = []; queues = [] } else q

pub data Event : Type 0 where
  enqueued : Object → Object → Bool → Text → ℕ → Event
  taken : Text → ℕ → Event
  ended_work : Text → ℕ → Outcome → Event
  close_begun workers_stopped close_ended : Event

unfoldable pub step : TaskQueue → Event → TaskQueue
unfolding enqueue take finish begin_close stop_workers end_close
step q (enqueued user_id operation is_callable task_id now) =
    (enqueue user_id operation is_callable task_id now q).1
step q (taken user now) = take user now q
step q (ended_work user now o) = finish user now o q
step q close_begun = begin_close q
step q workers_stopped = stop_workers q
step q close_ended = end_close q

unfoldable pub run : TaskQueue → List Event → TaskQueue
run q [] = q
run q (e ∷ es) = run (step q e) es
