-- ===== src/TaskQueue/Taking.antt =====
-- A worker of backend/task_queue.py takes its next item: the invariant is kept.
use multi_tenant_rag_applica.Prelude.{
  ℕ, ◌≡◌, refl, Bool, true, false, some, List, [], ◌∷◌, arith, ◌==◌, nat_eq, list_eq, eq_iff,
  eq_refl, contains, nodup, if◌then◌else◌, Option-cases, Bool-cases, inl, inr,
}
use multi_tenant_rag_applica.Python.Text.{Text}
use multi_tenant_rag_applica.Python.Dict.{Dict, lookup, insert, lookup-insert}
use multi_tenant_rag_applica.TaskQueue.{
  TaskQueue, TaskRecord, is_done, Item, stop, task, items_of, Worker, waiting, working, ended, died,
  started, take_item, take, set_worker,
}
use multi_tenant_rag_applica.TaskQueue.Retention.{
  Records, pending_of, is_queued, is_running, is_users,
}
use multi_tenant_rag_applica.TaskQueue.Invariant.{
  runs, Inv, is_users-insert, is_completed-insert, pending-insert,
}

abbrev pub works_on : Worker → Text → Bool
works_on (working j) id = j == id
works_on _ id = false

pub runs-insert :
    (user u id : Text) (w : Worker) (q : TaskQueue) (queues : Dict Text (List Item)) (r : Records)
    → runs (record q { records = r; queues = queues; workers = insert user w q.workers }) u id
      ≡ (if user == u then works_on w id else runs q u id)
runs-insert user u id w q queues r = ground (arith, lookup-insert user u w q.workers)

module _ (user : Text) (now : ℕ) (q : TaskQueue) (inv : Inv q)
    (waits : lookup user q.workers ≡ some waiting) where
  take_stop-Inv :
      (rest : List Item) → items_of user q ≡ stop ∷ rest → Inv (take_item user now stop rest q)
  unfolding take_item set_worker pending_of
  take_stop-Inv rest e = record {
    waits = λ u j. rw (pending-insert user u rest q) (ground (arith, inv.waits u j, eq_iff user u));
    runs_one =
        λ u j. rw (runs-insert user u j ended q) (ground (arith, inv.runs_one u j, eq_iff user u));
    once = λ u. rw (pending-insert user u rest q) (ground (arith, inv.once u, eq_iff user u));
    retained = inv.retained;
    bounded = inv.bounded;
    room = inv.room;
  }

  module _ (id : Text) (rest : List Item) (e : items_of user q ≡ task id ∷ rest) where
    recorded : is_users is_queued user id q.records ≡ true
    unfolding pending_of contains
    recorded = ground (arith, inv.waits user id, eq_refl id)

    take_task-settled :
        (r : TaskRecord) (j : Text) (s : TaskRecord)
        → lookup id q.records ≡ some r
        → lookup j (insert id (started now r) q.records) ≡ some s
        → is_done s.status ≡ true
        → s.completed ≡ true
    unfolding started
    take_task-settled r j s f l d = elim (Bool-cases (id == j)) [
      | inl b ↦ absurd (ground (arith, lookup-insert id j (started now r) q.records))
      | inr b ↦
          inv.retained.settled j s (ground (arith, lookup-insert id j (started now r) q.records)) d
    ]

    take_task-Inv : Inv (take_item user now (task id) rest q)
    unfolding take_item started pending_of contains nodup
    take_task-Inv = elim (Option-cases (lookup id q.records)) [
      | inl n ↦ absurd (ground (arith, recorded))
      | inr (r, f) ↦
          rw (f, take_item)
            (record {
              waits = λ u j.
                  rw (pending-insert user u rest q, is_users-insert is_queued u j id)
                    (ground (
                      arith,
                      inv.waits u j,
                      inv.once user,
                      recorded,
                      eq_iff id j,
                      eq_iff user u,
                      eq_iff r.user_id user,
                    ));
              runs_one = λ u j.
                  rw (runs-insert user u j (working id) q, is_users-insert is_running u j id)
                    (ground (
                      arith,
                      inv.runs_one u j,
                      recorded,
                      eq_iff id j,
                      eq_iff user u,
                      eq_iff r.user_id user,
                    ));
              once = λ u.
                  rw (pending-insert user u rest q)
                    (ground (arith, inv.once u, inv.once user, eq_iff user u));
              retained = record {
                settled = λ j s. take_task-settled r j s f;
                listed = λ j.
                    rw (is_completed-insert j id)
                      (ground (arith, inv.retained.listed j, recorded, eq_iff id j));
                once = inv.retained.once;
              };
              bounded = inv.bounded;
              room = inv.room;
            })
    ]

-- A worker that takes its next item keeps the invariant, whatever the queue holds.
pub take-Inv : (user : Text) (now : ℕ) (q : TaskQueue) → Inv q → Inv (take user now q)
unfolding take
take-Inv user now q inv = elim (Option-cases (lookup user q.workers)) [
  | inl e ↦ rw (e, take) inv
  | inr (ended, e) ↦ rw (e, take) inv
  | inr (died, e) ↦ rw (e, take) inv
  | inr (working id, e) ↦ rw (e, take) inv
  | inr (waiting, e) ↦ rw (e, take) (next e (items_of user q) refl)
]
  where
    next :
        lookup user q.workers ≡ some waiting
        → (items : List Item) → items_of user q ≡ items
        → Inv (elim items [ [] ↦ q | item ∷ rest ↦ take_item user now item rest q ])
    next e [] f = inv
    next e (stop ∷ rest) f = take_stop-Inv user now q inv e rest f
    next e (task id ∷ rest) f = take_task-Inv user now q inv e id rest f
