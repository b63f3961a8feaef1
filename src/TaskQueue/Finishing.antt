-- ===== src/TaskQueue/Finishing.antt =====
-- Work ends in backend/task_queue.py: the outcome is recorded and retained, and the invariant kept.
use multi_tenant_rag_applica.Prelude.{
  ℕ, ◌≡◌, refl, sym, ap, ◌∙◌, Bool, true, false, some, List, [], ◌∷◌, ◌++◌, arith, ◌==◌, nat_eq,
  list_eq, eq_iff, eq_refl, contains, length, ◌≤◌, Bool-cases, if◌then◌else◌, Option-cases, inl,
  inr,
}
use mathlib.Core.Path.{subst}
use multi_tenant_rag_applica.Python.Text.{Text}
use multi_tenant_rag_applica.Python.Dict.{lookup, insert, lookup-insert}
use multi_tenant_rag_applica.Mappings.Inverse.{contains-append, nodup-append}
use multi_tenant_rag_applica.TaskQueue.{
  TaskQueue, TaskRecord, items_of, waiting, working, ended, died, Outcome, returned, raised,
  cancelled, fatal, is_done, retain_done, finished, set_record, expire, retain_completed,
  after_work, finish, set_worker,
}
use multi_tenant_rag_applica.TaskQueue.Retention.{
  Records, is_queued, is_running, is_users, expire_other, expire_last, IsRetained,
  expire-IsRetained, expire-bound, expire-is_users,
}
use multi_tenant_rag_applica.TaskQueue.Invariant.{Inv, is_users-insert, is_completed-insert}
use multi_tenant_rag_applica.TaskQueue.Taking.{works_on, runs-insert}

finished-is_queued : (now : ℕ) (o : Outcome) (r : TaskRecord) → is_queued (finished now o r) ≡ false
unfolding finished
finished-is_queued now returned r = refl
finished-is_queued now raised r = refl
finished-is_queued now cancelled r = refl
finished-is_queued now fatal r = ground arith

finished-is_running :
    (now : ℕ) (o : Outcome) (r : TaskRecord) → is_running (finished now o r) ≡ false
unfolding finished
finished-is_running now returned r = refl
finished-is_running now raised r = refl
finished-is_running now cancelled r = refl
finished-is_running now fatal r = ground arith

finished-completed : (now : ℕ) (o : Outcome) (r : TaskRecord) → (finished now o r).completed ≡ true
unfolding finished
finished-completed now returned r = refl
finished-completed now raised r = refl
finished-completed now cancelled r = refl
finished-completed now fatal r = refl

done-is_queued : (r : TaskRecord) → is_done r.status ≡ true → is_queued r ≡ false
done-is_queued r h = ground arith

done-is_running : (r : TaskRecord) → is_done r.status ≡ true → is_running r ≡ false
done-is_running r h = ground arith

after_work-idle : (o : Outcome) (id : Text) → works_on (after_work o) id ≡ false
unfolding after_work
after_work-idle returned id = refl
after_work-idle raised id = refl
after_work-idle cancelled id = refl
after_work-idle fatal id = refl

module _ (user id : Text) (now : ℕ) (o : Outcome) (q : TaskQueue) (inv : Inv q)
    (works : lookup user q.workers ≡ some (working id)) where
  recorded : is_users is_running user id q.records ≡ true
  recorded = ground (arith, inv.runs_one user id, eq_refl id)

  module _ (r : TaskRecord) (f : lookup id q.records ≡ some r) where
    -- The records when the outcome is known, before old ones expire.
    abbrev outcome : Records
    outcome = insert id (finished now o r) q.records

    abbrev order : List Text
    order = q.completed_order ++ id ∷ []

    outcome-settled :
        (j : Text) (s : TaskRecord)
        → lookup j outcome ≡ some s
        → is_done s.status ≡ true
        → s.completed ≡ true
    outcome-settled j s l d = elim (Bool-cases (id == j)) [
      | inl b ↦
          let same : finished now o r ≡ s =
            ground (arith, lookup-insert id j (finished now o r) q.records) in
          rw (← same) (finished-completed now o r)
      | inr b ↦
          inv.retained.settled j s (ground (arith, lookup-insert id j (finished now o r) q.records))
            d
    ]

    outcome-IsRetained : is_done (finished now o r).status ≡ true → IsRetained order outcome
    outcome-IsRetained d = record {
      listed = λ j. rw (is_completed-insert j id (finished now o r) q.records) (
          ground
            (arith, contains-append j id q.completed_order, inv.retained.listed j, d, eq_iff id j));
      once = ground (
        arith,
        nodup-append id q.completed_order,
        inv.retained.once,
        inv.retained.listed id,
        recorded,
      );
      settled = outcome-settled;
    }

    -- After a fatal exception the record is not among the retained ones.
    fatal-IsRetained :
        is_done (finished now o r).status ≡ false → IsRetained q.completed_order outcome
    fatal-IsRetained d = record {
      listed = λ j.
          rw (is_completed-insert j id (finished now o r) q.records)
            (ground (arith, inv.retained.listed j, d, recorded, eq_iff id j));
      once = inv.retained.once;
      settled = outcome-settled;
    }

    outcome-is_users :
        (test : TaskRecord → Bool)
        → test (finished now o r) ≡ false
        → (u j : Text)
        → is_users test u j outcome ≡ (if id == j then false else is_users test u j q.records)
    outcome-is_users test t u j =
        is_users-insert test u j id (finished now o r) q.records ∙ ground (arith, t)

    -- What is left in order and records, with the outcome, or without older ones too.
    record IsLeft (order' : List Text) (records' : Records) : Type 0 where
      retained : IsRetained order' records'
      bounded : length order' ≤ q.max_completed_records
      kept :
          (test : TaskRecord → Bool)
          → ((s : TaskRecord) → is_done s.status ≡ true → test s ≡ false)
          → test (finished now o r) ≡ false
          → (u j : Text)
          → is_users test u j records' ≡ (if id == j then false else is_users test u j q.records)

    done-IsLeft :
        is_done (finished now o r).status ≡ true
        → IsLeft
            (expire q.max_completed_records order outcome).0
            (expire q.max_completed_records order outcome).1
    done-IsLeft d = record {
      retained = expire-IsRetained q.max_completed_records order outcome (outcome-IsRetained d);
      bounded = expire-bound q.max_completed_records order outcome;
      kept = λ test only t u j.
          expire-is_users test only q.max_completed_records order outcome u j (outcome-IsRetained d)
          ∙ outcome-is_users test t u j;
    }

    fatal-IsLeft : is_done (finished now o r).status ≡ false → IsLeft q.completed_order outcome
    fatal-IsLeft d = record {
      retained = fatal-IsRetained d;
      bounded = inv.bounded;
      kept = λ test only t u j. outcome-is_users test t u j;
    }

    left-Inv :
        (order' : List Text) (records' : Records)
        → IsLeft order' records'
        → Inv (
            set_worker user
              (after_work o)
              (record q { completed_order = order'; records = records' }))
    unfolding set_worker items_of
    left-Inv order' records' l = record {
      waits = λ u j.
          rw (l.kept is_queued done-is_queued (finished-is_queued now o r) u j)
            (ground (arith, inv.waits u j, recorded, eq_iff id j));
      runs_one = λ u j.
          rw
            (
              runs-insert user u j (after_work o) q q.queues records',
              l.kept is_running done-is_running (finished-is_running now o r) u j,
            )
            (ground (
              arith,
              after_work-idle o j,
              inv.runs_one u j,
              recorded,
              eq_iff id j,
              eq_iff user u,
              eq_iff r.user_id user,
              eq_iff r.user_id u,
            ));
      once = inv.once;
      retained = l.retained;
      bounded = l.bounded;
      room = inv.room;
    }

    abbrev with_outcome : TaskQueue
    with_outcome = record q { records = outcome }

    set_record_lem : set_record id now o q ≡ with_outcome
    unfolding set_record
    set_record_lem = rw (f, set_record)

    lookup-outcome : lookup id with_outcome.records ≡ some (finished now o r)
    lookup-outcome = ground (arith, lookup-insert id id (finished now o r) q.records, eq_refl id)

    retain_done-outcome :
        is_done (finished now o r).status ≡ true
        → retain_done id with_outcome ≡ retain_completed id with_outcome
    unfolding retain_done
    retain_done-outcome d = ground (arith, lookup-outcome, d)

    retain_done-fatal :
        is_done (finished now o r).status ≡ false → retain_done id with_outcome ≡ with_outcome
    unfolding retain_done
    retain_done-fatal d = ground (arith, lookup-outcome, d)

    -- The end of the work, when the task has an outcome, and when it has none.
    finish_done :
        is_done (finished now o r).status ≡ true
        → finish user now o q
          ≡ set_worker user (after_work o) (record q {
            completed_order = (expire q.max_completed_records order outcome).0;
            records = (expire q.max_completed_records order outcome).1;
          })
    unfolding finish retain_completed
    finish_done d =
        rw (works, finish)
          (ap (set_worker user (after_work o))
            (ap (retain_done id) set_record_lem ∙ retain_done-outcome d))

    finish_fatal :
        is_done (finished now o r).status ≡ false
        → finish user now o q ≡ set_worker user (after_work o) with_outcome
    unfolding finish
    finish_fatal d =
        rw (works, finish)
          (ap (set_worker user (after_work o))
            (ap (retain_done id) set_record_lem ∙ retain_done-fatal d))

    finish_recorded-Inv : Inv (finish user now o q)
    finish_recorded-Inv = elim (Bool-cases (is_done (finished now o r).status)) [
      | inl d ↦ rw (finish_done d) (left-Inv _ _ (done-IsLeft d))
      | inr d ↦ rw (finish_fatal d) (left-Inv _ _ (fatal-IsLeft d))
    ]

    -- What other records become: no record is lost that was not completed before.
    pub lookup-finish :
        (j : Text)
        → contains j q.completed_order ≡ false
        → lookup j (finish user now o q).records
          ≡ (if id == j then some (finished now o r) else lookup j q.records)
    unfolding set_worker contains
    lookup-finish j c = elim (Bool-cases (is_done (finished now o r).status)) [
      | inr d ↦ rw (finish_fatal d) (lookup-insert id j (finished now o r) q.records)
      | inl d ↦ elim (Bool-cases (id == j)) [
        | inr b ↦
            rw (finish_done d, b)
              (expire_other q.max_completed_records order outcome j
                  (contains-append j id q.completed_order ∙ ground (arith, c, b))
                ∙ lookup-insert id j (finished now o r) q.records
                ∙ rw b refl)
        | inl b ↦
            let same : id ≡ j = ground (arith, eq_iff id j) in
            rw (finish_done d, b)
              (subst
                (λ k.
                  lookup k (expire q.max_completed_records order outcome).1
                  ≡ some (finished now o r))
                same
                (expire_last q.max_completed_records q.completed_order outcome id inv.room
                    (subst (λ k. contains k q.completed_order ≡ false) (sym same) c)
                  ∙ lookup-outcome))
      ]
    ]

  pub finish_working-Inv : Inv (finish user now o q)
  finish_working-Inv = elim (Option-cases (lookup id q.records)) [
    | inl n ↦ absurd (ground (arith, recorded))
    | inr (r, f) ↦ finish_recorded-Inv r f
  ]

-- When the work of a user ends, in whatever way, the invariant is kept.
pub finish-Inv :
    (user : Text) (now : ℕ) (o : Outcome) (q : TaskQueue) → Inv q → Inv (finish user now o q)
unfolding finish
finish-Inv user now o q inv = elim (Option-cases (lookup user q.workers)) [
  | inl e ↦ rw (e, finish) inv
  | inr (ended, e) ↦ rw (e, finish) inv
  | inr (died, e) ↦ rw (e, finish) inv
  | inr (waiting, e) ↦ rw (e, finish) inv
  | inr (working id, e) ↦ finish_working-Inv user id now o q inv e
]
