-- ===== src/TaskQueue/Closing.antt =====
-- The shutdown of backend/task_queue.py, `close` and what the workers do in between: both
-- invariants are kept, and nothing that was accepted is left undone.
use multi_tenant_rag_applica.Prelude.{
  ℕ, ◌≡◌, refl, sym, ◌∙◌, ap, true, false, some, List, [], ◌∷◌, arith, nat_eq, list_eq,
  Option-cases, inl, inr, Bool-cases,
}
use multi_tenant_rag_applica.Python.Text.{Text, is_empty}
use multi_tenant_rag_applica.Python.Dict.{lookup, insert, lookup-insert}
use multi_tenant_rag_applica.TaskQueue.{
  TaskQueue, Item, stop, task, items_of, Worker, waiting, working, ended, died, Outcome, returned,
  raised, cancelled, fatal, is_done, retain_done, take_item, take, set_record, retain_completed,
  after_work, finish, set_worker,
}
use multi_tenant_rag_applica.TaskQueue.Retention.{pending_of}
use multi_tenant_rag_applica.TaskQueue.Staffed.{
  IsStaffed, is_staffed, stops_last, has_stop, set_user-IsStaffed, items-insert,
}

after_work-staffed : (o : Outcome) → is_staffed (some (after_work o)) ≡ true
unfolding after_work
after_work-staffed returned = refl
after_work-staffed raised = refl
after_work-staffed cancelled = refl
after_work-staffed fatal = refl

-- The worker changes, and the queues do not.
set_worker-IsStaffed :
    (user : Text) (w : Worker) (q q' : TaskQueue)
    → IsStaffed q
    → q'.queues ≡ q.queues
    → q'.workers ≡ insert user w q.workers
    → q'.accepting ≡ q.accepting
    → is_staffed (some w) ≡ true
    → IsStaffed q'
unfolding items_of
set_worker-IsStaffed user w q q' s i j a f = record {
  staffed = λ u. rw (i, j, lookup-insert user u w q.workers) (λ h. ground (arith, s.staffed u, f));
  last = λ u. rw i (s.last u);
  unstopped = λ b u. rw i (s.unstopped (sym a ∙ b) u);
}

set_record-rest :
    (id : Text) (now : ℕ) (o : Outcome) (q : TaskQueue)
    → ((set_record id now o q).queues ≡ q.queues)
      × ((set_record id now o q).workers ≡ q.workers)
      × ((set_record id now o q).accepting ≡ q.accepting)
unfolding set_record
set_record-rest id now o q = elim (Option-cases (lookup id q.records)) [
  | inl e ↦ rw (e, set_record) (refl, refl, refl)
  | inr (r, e) ↦ rw (e, set_record) (refl, refl, refl)
]

-- What the retention leaves alone.
retain_done-rest :
    (id : Text) (q : TaskQueue)
    → ((retain_done id q).queues ≡ q.queues)
      × ((retain_done id q).workers ≡ q.workers)
      × ((retain_done id q).accepting ≡ q.accepting)
unfolding retain_done retain_completed
retain_done-rest id q = elim (Option-cases (lookup id q.records)) [
  | inl e ↦ rw (e, retain_done) (refl, refl, refl)
  | inr (r, e) ↦ elim (Bool-cases (is_done r.status)) [
    | inl d ↦ rw (e, retain_done, d) (refl, refl, refl)
    | inr d ↦ rw (e, retain_done, d) (refl, refl, refl)
  ]
]

pub finish-IsStaffed :
    (user : Text) (now : ℕ) (o : Outcome) (q : TaskQueue)
    → IsStaffed q
    → IsStaffed (finish user now o q)
unfolding finish set_worker
finish-IsStaffed user now o q s = elim (Option-cases (lookup user q.workers)) [
  | inl e ↦ rw (e, finish) s
  | inr (ended, e) ↦ rw (e, finish) s
  | inr (died, e) ↦ rw (e, finish) s
  | inr (waiting, e) ↦ rw (e, finish) s
  | inr (working id, e) ↦
      let (i, j, a) = set_record-rest id now o q in
      let (k, l, b) = retain_done-rest id (set_record id now o q) in
      rw (e, finish)
        (set_worker-IsStaffed user (after_work o) q
          (set_worker user (after_work o) (retain_done id (set_record id now o q))) s (k ∙ i)
          (ap (insert user (after_work o)) (l ∙ j)) (b ∙ a) (after_work-staffed o))
]

pub stops_last-idle :
    (items : List Item) → is_empty (pending_of items) ≡ true → stops_last items ≡ true
unfolding stops_last pending_of
stops_last-idle [] h = refl
stops_last-idle (task id ∷ items) h = absurd (ground arith)
stops_last-idle (stop ∷ items) h = h

module _ (user : Text) (now : ℕ) (q : TaskQueue) (s : IsStaffed q) where
  take_stop-IsStaffed :
      (rest : List Item)
      → items_of user q ≡ stop ∷ rest
      → IsStaffed (take_item user now stop rest q)
  unfolding take_item set_worker items_of stops_last has_stop
  take_stop-IsStaffed rest e =
      let idle : is_empty (pending_of rest) ≡ true = ground (arith, s.last user) in
      set_user-IsStaffed user rest ended q (take_item user now stop rest q) s
        (λ u. items-insert user u rest q) (λ u. lookup-insert user u ended q.workers) refl
        (λ h. ground arith) (stops_last-idle rest idle)
        (λ a. absurd (ground (arith, s.unstopped a user)))

  take_task-IsStaffed :
      (id : Text) (rest : List Item)
      → items_of user q ≡ task id ∷ rest
      → IsStaffed (take_item user now (task id) rest q)
  unfolding take_item set_worker items_of stops_last has_stop
  take_task-IsStaffed id rest e =
      let last : stops_last rest ≡ true = ground (arith, s.last user) in
      let open_rest : (q.accepting ≡ true → has_stop rest ≡ false) =
        λ a. ground (arith, s.unstopped a user) in
      elim (Option-cases (lookup id q.records)) [
        | inl n ↦
            set_user-IsStaffed user rest died q (take_item user now (task id) rest q) s
              (λ u. rw (n, take_item) (items-insert user u rest q))
              (λ u. rw (n, take_item) (lookup-insert user u died q.workers)) (rw (n, take_item))
              (λ h. refl) last open_rest
        | inr (r, f) ↦
            set_user-IsStaffed user rest (working id) q (take_item user now (task id) rest q) s
              (λ u. rw (f, take_item) (items-insert user u rest q))
              (λ u. rw (f, take_item) (lookup-insert user u (working id) q.workers))
              (rw (f, take_item)) (λ h. refl) last open_rest
      ]

pub take-IsStaffed :
    (user : Text) (now : ℕ) (q : TaskQueue) → IsStaffed q → IsStaffed (take user now q)
unfolding take
take-IsStaffed user now q s = elim (Option-cases (lookup user q.workers)) [
  | inl e ↦ rw (e, take) s
  | inr (ended, e) ↦ rw (e, take) s
  | inr (died, e) ↦ rw (e, take) s
  | inr (working id, e) ↦ rw (e, take) s
  | inr (waiting, e) ↦ rw (e, take) (next (items_of user q) refl)
]
  where
    next :
        (items : List Item)
        → items_of user q ≡ items
        → IsStaffed (elim items [ [] ↦ q | item ∷ rest ↦ take_item user now item rest q ])
    next [] f = s
    next (stop ∷ rest) f = take_stop-IsStaffed user now q s rest f
    next (task id ∷ rest) f = take_task-IsStaffed user now q s id rest f
