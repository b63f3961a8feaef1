-- ===== src/TaskQueue/Invariant.antt =====
-- The invariant of backend/task_queue.py: a task that is recorded as queued is queued once, one
-- that is recorded as running is run by its user's worker until its event is set, and the outcomes
-- are retained in the order of completion.
use multi_tenant_rag_applica.Prelude.{
  ℕ, ◌≤◌, ◌<◌, Bool-cases, inl, inr, ◌≡◌, refl, ap, Bool, true, false, ◌&&◌, none, some, List, [],
  ◌∷◌, ◌++◌, arith, ◌==◌, nat_eq, list_eq, eq_iff, contains, nodup, length, if◌then◌else◌,
}
use multi_tenant_rag_applica.Python.Text.{Text}
use multi_tenant_rag_applica.Python.Dict.{Dict, lookup, insert, lookup-insert}
use multi_tenant_rag_applica.Mappings.Inverse.{contains-append, nodup-append}
use multi_tenant_rag_applica.TaskQueue.{
  TaskQueue, TaskRecord, Item, stop, task, items_of, new_record, Worker, working, live_worker,
  accept, is_done,
}
use multi_tenant_rag_applica.TaskQueue.Retention.{
  Records, pending_of, is_queued, is_running, is_users, is_completed, IsRetained,
}

-- The worker of the user runs the task.
abbrev pub runs : TaskQueue → Text → Text → Bool
runs q user id = elim (lookup user q.workers) [ some (working j) ↦ j == id | _ ↦ false ]

abbrev pub pending : TaskQueue → Text → List Text
pending q user = pending_of (items_of user q)

pub record Inv (q : TaskQueue) : Type 0 where
  pub waits : (user id : Text) → contains id (pending q user) ≡ is_users is_queued user id q.records
  pub runs_one : (user id : Text) → runs q user id ≡ is_users is_running user id q.records
  pub once : (user : Text) → nodup (pending q user) ≡ true
  pub retained : IsRetained q.completed_order q.records
  pub bounded : length q.completed_order ≤ q.max_completed_records
  pub room : 0 < q.max_completed_records

pending-append :
    (items : List Item) (id : Text)
    → pending_of (items ++ task id ∷ []) ≡ pending_of items ++ id ∷ []
unfolding pending_of
pending-append [] id = refl
pending-append (stop ∷ items) id = pending-append items id
pending-append (task j ∷ items) id = ap (◌∷◌ j) (pending-append items id)

pub is_users-insert :
    (test : TaskRecord → Bool) (u j id : Text) (r : TaskRecord) (records : Records)
    → is_users test u j (insert id r records)
      ≡ (if id == j then test r && r.user_id == u else is_users test u j records)
is_users-insert test u j id r records = ground (arith, lookup-insert id j r records)

pub is_completed-insert :
    (j id : Text) (r : TaskRecord) (records : Records)
    → is_completed j (insert id r records)
      ≡ (if id == j then is_done r.status else is_completed j records)
is_completed-insert j id r records = ground (arith, lookup-insert id j r records)

-- The queue of one user is changed.
pub pending-insert :
    (user u : Text) (items : List Item) (q : TaskQueue) (w : Dict Text Worker) (r : Records)
    → pending (record q { records = r; queues = insert user items q.queues; workers = w }) u
      ≡ (if user == u then pending_of items else pending q u)
unfolding items_of
pending-insert user u items q w r = ground (arith, lookup-insert user u items q.queues)

module _ (user operation id : Text) (now : ℕ) (q : TaskQueue) (inv : Inv q)
    (fresh : lookup id q.records ≡ none) where
  abbrev after : TaskQueue
  after = accept user operation id now q

  -- The user's queue has the task behind the others.
  pub pending-accept :
      (u : Text) → pending after u ≡ (if user == u then pending q user ++ id ∷ [] else pending q u)
  unfolding accept
  pending-accept u = rw (
    pending-insert user u (items_of user q ++ task id ∷ []) q,
    pending-append (items_of user q) id,
  )

  not_pending : (u : Text) → contains id (pending q u) ≡ false
  not_pending u = ground (arith, inv.waits u id)

  is_users-accept :
      (test : TaskRecord → Bool) (u j : Text)
      → is_users test u j after.records ≡ (
          if id == j
          then test (new_record user operation id now) && user == u
          else is_users test u j q.records)
  unfolding accept
  is_users-accept test u j = is_users-insert test u j id _ q.records

  accept-waits : (u j : Text) → contains j (pending after u) ≡ is_users is_queued u j after.records
  accept-waits u j =
      rw (pending-accept u, is_users-accept is_queued u j)
        (ground (
          arith,
          inv.waits u j,
          not_pending u,
          contains-append j id (pending q user),
          eq_iff id j,
          eq_iff user u,
        ))

  runs-accept : (u j : Text) → runs after u j ≡ runs q u j
  unfolding accept live_worker
  runs-accept u j =
      ground
        (arith, lookup-insert user u (live_worker (lookup user q.workers)) q.workers, eq_iff user u)

  accept-runs_one : (u j : Text) → runs after u j ≡ is_users is_running u j after.records
  accept-runs_one u j =
      rw (runs-accept u j, is_users-accept is_running u j)
        (ground (arith, inv.runs_one u j, fresh, eq_iff id j))

  accept-once : (u : Text) → nodup (pending after u) ≡ true
  accept-once u = rw (pending-accept u) (
      ground (arith, inv.once u, inv.once user, not_pending user, nodup-append id (pending q user)))

  accept-settled :
      (j : Text) (r : TaskRecord)
      → lookup j after.records ≡ some r
      → is_done r.status ≡ true
      → r.completed ≡ true
  unfolding accept
  accept-settled j r e d = elim (Bool-cases (id == j)) [
    | inl b ↦
        absurd (ground (arith, lookup-insert id j (new_record user operation id now) q.records))
    | inr b ↦
        inv.retained.settled j r
          (ground (arith, lookup-insert id j (new_record user operation id now) q.records)) d
  ]

  accept-IsRetained : IsRetained after.completed_order after.records
  unfolding accept
  accept-IsRetained = record {
    listed = λ j.
        rw (is_completed-insert j id) (ground (arith, inv.retained.listed j, fresh, eq_iff id j));
    once = inv.retained.once;
    settled = λ j r e d. accept-settled j r e d;
  }

  pub accept-Inv : Inv after
  unfolding accept
  accept-Inv = record {
    waits = accept-waits;
    runs_one = accept-runs_one;
    once = accept-once;
    retained = accept-IsRetained;
    bounded = inv.bounded;
    room = inv.room;
  }
