-- ===== src/TaskQueue/Staffed.antt =====
-- The workers of backend/task_queue.py: a user with a queued task has a worker that has not
-- returned, and `_STOP` is put behind every task.
use multi_tenant_rag_applica.Prelude.{
  ℕ, ◌≡◌, refl, sym, ◌∙◌, Bool, true, false, Option, none, some, List, [], ◌∷◌, ◌++◌, arith, ◌==◌,
  nat_eq, list_eq, if◌then◌else◌,
}
use multi_tenant_rag_applica.Python.Text.{Text, is_empty}
use multi_tenant_rag_applica.Python.Dict.{lookup, insert, lookup-insert}
use multi_tenant_rag_applica.TaskQueue.{
  TaskQueue, Item, stop, task, items_of, Worker, waiting, working, ended, died, live_worker, accept,
}
use multi_tenant_rag_applica.TaskQueue.Retention.{pending_of}

-- There is a worker, and it has not returned.
abbrev pub is_staffed : Option Worker → Bool
is_staffed none = false
is_staffed (some ended) = false
is_staffed (some w) = true

-- Behind a `_STOP` there is no task.
unfoldable pub stops_last : List Item → Bool
stops_last [] = true
stops_last (task id ∷ items) = stops_last items
stops_last (stop ∷ items) = is_empty (pending_of items)

unfoldable pub has_stop : List Item → Bool
has_stop [] = false
has_stop (task id ∷ items) = has_stop items
has_stop (stop ∷ items) = true

pub record IsStaffed (q : TaskQueue) : Type 0 where
  pub staffed :
      (user : Text)
      → is_empty (pending_of (items_of user q)) ≡ false
      → is_staffed (lookup user q.workers) ≡ true
  pub last : (user : Text) → stops_last (items_of user q) ≡ true
  pub unstopped : q.accepting ≡ true → (user : Text) → has_stop (items_of user q) ≡ false

stops_last-task :
    (items : List Item) (id : Text)
    → has_stop items ≡ false
    → stops_last (items ++ task id ∷ []) ≡ true
unfolding stops_last has_stop
stops_last-task [] id h = refl
stops_last-task (task j ∷ items) id h = stops_last-task items id h
stops_last-task (stop ∷ items) id h = cc

has_stop-task : (items : List Item) (id : Text) → has_stop (items ++ task id ∷ []) ≡ has_stop items
unfolding has_stop
has_stop-task [] id = refl
has_stop-task (task j ∷ items) id = has_stop-task items id
has_stop-task (stop ∷ items) id = refl

-- What it takes to change the queue and the worker of one user.
module _ (user : Text) (items : List Item) (w : Worker) (q q' : TaskQueue) where
  abbrev pub SetsQueue : Type 0
  SetsQueue = (u : Text) → items_of u q' ≡ (if user == u then items else items_of u q)

  abbrev pub SetsWorker : Type 0
  SetsWorker = (u : Text) → lookup u q'.workers ≡ (if user == u then some w else lookup u q.workers)

  pub set_user-IsStaffed :
      IsStaffed q
      → SetsQueue
      → SetsWorker
      → q'.accepting ≡ q.accepting
      → (is_empty (pending_of items) ≡ false → is_staffed (some w) ≡ true)
      → stops_last items ≡ true
      → (q.accepting ≡ true → has_stop items ≡ false)
      → IsStaffed q'
  set_user-IsStaffed s i j a f l o = record {
    staffed = λ u. rw (i u, j u) (λ h. ground (arith, s.staffed u, f));
    last = λ u. rw (i u) (ground (arith, s.last u));
    unstopped = λ b u. rw (i u) (ground (arith, s.unstopped (sym a ∙ b) u, o (sym a ∙ b)));
  }

pub items-insert :
    (user u : Text) (items : List Item) (q : TaskQueue)
    → items_of u (record q { queues = insert user items q.queues })
      ≡ (if user == u then items else items_of u q)
unfolding items_of
items-insert user u items q = ground (arith, lookup-insert user u items q.queues)

live_worker-staffed : (w : Option Worker) → is_staffed (some (live_worker w)) ≡ true
unfolding live_worker
live_worker-staffed none = refl
live_worker-staffed (some ended) = refl
live_worker-staffed (some died) = refl
live_worker-staffed (some waiting) = refl
live_worker-staffed (some (working id)) = refl

pub accept-IsStaffed :
    (user operation id : Text) (now : ℕ) (q : TaskQueue)
    → q.accepting ≡ true
    → IsStaffed q
    → IsStaffed (accept user operation id now q)
unfolding accept items_of
accept-IsStaffed user operation id now q a s =
    let items = items_of user q ++ task id ∷ [] in
    let w = live_worker (lookup user q.workers) in
    set_user-IsStaffed user items w q (accept user operation id now q) s
      (λ u. items-insert user u items q) (λ u. lookup-insert user u w q.workers) refl
      (λ h. live_worker-staffed (lookup user q.workers))
      (stops_last-task (items_of user q) id (s.unstopped a user))
      (λ b. has_stop-task (items_of user q) id ∙ s.unstopped a user)
