-- ===== src/TaskQueue/Stopping.antt =====
-- The steps of `close` in backend/task_queue.py keep both invariants.
use multi_tenant_rag_applica.Prelude.{
  ◌≡◌, refl, sym, ap, true, false, ◌&&◌, not, ◌⊎◌, Option, none, some, List, [], ◌∷◌, ◌++◌, map,
  all, arith, ◌==◌, nat_eq, list_eq, eq_iff, contains, nodup, Option-cases, inl, inr, Bool-cases,
}
use multi_tenant_rag_applica.Python.Text.{Text, is_empty}
use multi_tenant_rag_applica.Python.Dict.{Dict, keys, lookup}
use multi_tenant_rag_applica.TaskQueue.{
  TaskQueue, TaskRecord, Item, stop, task, items_of, Worker, waiting, working, ended, died,
  begin_close, stop_workers, put_stop, is_drained, end_close, has_ended,
}
use multi_tenant_rag_applica.TaskQueue.Retention.{pending_of, is_queued, is_running, is_users}
use multi_tenant_rag_applica.TaskQueue.Invariant.{pending, Inv}
use multi_tenant_rag_applica.TaskQueue.Staffed.{IsStaffed, stops_last, has_stop}

-- Both invariants.
abbrev pub IsSound : TaskQueue → Type 0
IsSound q = Inv q × IsStaffed q

-- `put(_STOP)` on every queue.
with_stop : Option (List Item) → Option (List Item)
with_stop none = none
with_stop (some items) = some (items ++ stop ∷ [])

lookup-put_stop :
    (u : Text) (queues : Dict Text (List Item))
    → lookup u (map put_stop queues) ≡ with_stop (lookup u queues)
unfolding lookup put_stop with_stop
lookup-put_stop u [] = refl
lookup-put_stop u ((v, items) ∷ queues) = ground (arith, lookup-put_stop u queues)

pending-stop : (items : List Item) → pending_of (items ++ stop ∷ []) ≡ pending_of items
unfolding pending_of
pending-stop [] = refl
pending-stop (stop ∷ items) = pending-stop items
pending-stop (task j ∷ items) = ap (◌∷◌ j) (pending-stop items)

stops_last-stop :
    (items : List Item) → stops_last items ≡ true → stops_last (items ++ stop ∷ []) ≡ true
unfolding stops_last pending_of
stops_last-stop [] h = refl
stops_last-stop (stop ∷ items) h = rw (pending-stop items) h
stops_last-stop (task j ∷ items) h = stops_last-stop items h

module _ (q : TaskQueue) where
  abbrev stopped : TaskQueue
  stopped = record q { queues = map put_stop q.queues }

  pending-stopped : (u : Text) → pending stopped u ≡ pending q u
  unfolding items_of with_stop pending_of
  pending-stopped u = elim (Option-cases (lookup u q.queues)) [
    | inl e ↦ ground (arith, lookup-put_stop u q.queues)
    | inr (items, e) ↦ ground (arith, lookup-put_stop u q.queues, pending-stop items)
  ]

  last-stopped :
      (u : Text) → stops_last (items_of u q) ≡ true → stops_last (items_of u stopped) ≡ true
  unfolding items_of with_stop
  last-stopped u h = elim (Option-cases (lookup u q.queues)) [
    | inl e ↦ ground (arith, lookup-put_stop u q.queues)
    | inr (items, e) ↦ ground (arith, lookup-put_stop u q.queues, stops_last-stop items)
  ]

  stopped-IsSound : IsSound q → q.accepting ≡ false → IsSound stopped
  stopped-IsSound (inv, s) a = (
    record {
      waits = λ u j. rw (pending-stopped u) (inv.waits u j);
      runs_one = inv.runs_one;
      once = λ u. rw (pending-stopped u) (inv.once u);
      retained = inv.retained;
      bounded = inv.bounded;
      room = inv.room;
    },
    record {
      staffed = λ u. rw (pending-stopped u) (s.staffed u);
      last = λ u. last-stopped u (s.last u);
      unstopped = λ b u. absurd (ground arith);
    },
  )

pub stop_workers-IsSound : (q : TaskQueue) → IsSound q → IsSound (stop_workers q)
unfolding stop_workers
stop_workers-IsSound q s =
    elim (Bool-cases (not q.accepting && all (is_drained q) (keys q.queues))) [
      | inl h ↦ rw h (stopped-IsSound q s (ground arith))
      | inr h ↦ rw h s
    ]

pub begin_close-IsSound : (q : TaskQueue) → IsSound q → IsSound (begin_close q)
unfolding begin_close items_of
begin_close-IsSound q (inv, s) = elim (Bool-cases (not q.accepting && is_empty q.workers)) [
  | inl h ↦ rw h (inv, s)
  | inr h ↦ rw h (
    record {
      waits = inv.waits;
      runs_one = inv.runs_one;
      once = inv.once;
      retained = inv.retained;
      bounded = inv.bounded;
      room = inv.room;
    },
    record { staffed = s.staffed; last = s.last; unstopped = λ b u. absurd (ground arith) },
  )
]

all-lookup :
    (u : Text) (workers : Dict Text Worker)
    → all has_ended workers ≡ true
    → (lookup u workers ≡ none) ⊎ (lookup u workers ≡ some ended)
unfolding lookup has_ended
all-lookup u [] h = inl refl
all-lookup u ((v, waiting) ∷ workers) h = absurd (ground arith)
all-lookup u ((v, died) ∷ workers) h = absurd (ground arith)
all-lookup u ((v, working id) ∷ workers) h = absurd (ground arith)
all-lookup u ((v, ended) ∷ workers) h = elim (Bool-cases (v == u)) [
  | inl e ↦ inr (rw e)
  | inr e ↦ rw e (all-lookup u workers (ground arith))
]

-- When every worker has returned, no task is queued, and none runs.
module _ (q : TaskQueue) (s : IsSound q) (h : all has_ended q.workers ≡ true) where
  no_pending : (u : Text) → is_empty (pending q u) ≡ true
  no_pending u = elim (all-lookup u q.workers h) [
    | inl e ↦ ground (arith, s.1.staffed u)
    | inr e ↦ ground (arith, s.1.staffed u)
  ]

  none_queued : (u j : Text) → is_users is_queued u j q.records ≡ false
  unfolding contains
  none_queued u j = ground (arith, s.0.waits u j, no_pending u)

  none_running : (u j : Text) → is_users is_running u j q.records ≡ false
  none_running u j = elim (all-lookup u q.workers h) [
    | inl e ↦ ground (arith, s.0.runs_one u j)
    | inr e ↦ ground (arith, s.0.runs_one u j)
  ]

  cleared-IsSound : IsSound (record q { workers = []; queues = [] })
  unfolding items_of lookup pending_of contains nodup stops_last has_stop
  cleared-IsSound = (
    record {
      waits = λ u j. sym (none_queued u j);
      runs_one = λ u j. sym (none_running u j);
      once = λ u. refl;
      retained = s.0.retained;
      bounded = s.0.bounded;
      room = s.0.room;
    },
    record { staffed = λ u e. absurd (ground arith); last = λ u. refl; unstopped = λ b u. refl },
  )

  -- The event of every record that is left is set.
  pub all_completed :
      (id : Text) (r : TaskRecord) → lookup id q.records ≡ some r → r.completed ≡ true
  all_completed id r e = ground (
    arith,
    none_queued r.user_id id,
    none_running r.user_id id,
    s.0.retained.settled id r e,
    eq_iff r.user_id r.user_id,
  )

pub end_close-IsSound : (q : TaskQueue) → IsSound q → IsSound (end_close q)
unfolding end_close
end_close-IsSound q s = elim (Bool-cases (not q.accepting && all has_ended q.workers)) [
  | inl h ↦ rw h (cleared-IsSound q s (ground arith))
  | inr h ↦ rw h s
]
