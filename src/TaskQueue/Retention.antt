-- ===== src/TaskQueue/Retention.antt =====
-- The invariant of backend/task_queue.py, and how the expiry of completed records keeps it.
use multi_tenant_rag_applica.Prelude.{
  ℕ, ◌≤◌, ◌<◌, ◌++◌, ◌≡◌, refl, ◌∙◌, Bool, true, false, ◌&&◌, not, none, some, List, [], ◌∷◌, arith,
  ◌==◌, nat_eq, list_eq, eq_iff, contains, nodup, ltb, length, Bool-cases, inl, inr, Option-cases,
  contains_head,
}
use multi_tenant_rag_applica.Python.Text.{Text}
use multi_tenant_rag_applica.Python.Dict.{Dict, lookup, delete, lookup-delete}
use multi_tenant_rag_applica.TaskQueue.{
  TaskRecord, Status, queued, running, Item, stop, task, expire, is_done,
}

abbrev pub Records : Type 0
Records = Dict Text TaskRecord

-- The tasks of a queue.
unfoldable pub pending_of : List Item → List Text
pending_of [] = []
pending_of (stop ∷ items) = pending_of items
pending_of (task id ∷ items) = id ∷ pending_of items

abbrev pub is_queued_status : Status → Bool
is_queued_status queued = true
is_queued_status _ = false

abbrev pub is_running_status : Status → Bool
is_running_status running = true
is_running_status _ = false

-- The task is queued, and its event is not set.
abbrev pub is_queued : TaskRecord → Bool
is_queued r = is_queued_status r.status && not r.completed

-- The task runs, and its event is not set. After a fatal exception it is set.
abbrev pub is_running : TaskRecord → Bool
is_running r = is_running_status r.status && not r.completed

-- The record of the task is there, is the user's, and passes the test.
abbrev pub is_users : (TaskRecord → Bool) → Text → Text → Records → Bool
is_users test user id records = elim (lookup id records) [
  | none ↦ false
  | some r ↦ test r && r.user_id == user
]

abbrev pub is_completed : Text → Records → Bool
is_completed id records = elim (lookup id records) [ none ↦ false | some r ↦ is_done r.status ]

-- The completed records are those of the order of completion, which names each once.
pub record IsRetained (order : List Text) (records : Records) : Type 0 where
  pub listed : (id : Text) → contains id order ≡ is_completed id records
  pub once : nodup order ≡ true
  pub settled :
      (id : Text) (r : TaskRecord)
      → lookup id records ≡ some r
      → is_done r.status ≡ true
      → r.completed ≡ true

expire_first :
    (id : Text) (order : List Text) (records : Records)
    → IsRetained (id ∷ order) records
    → IsRetained order (delete id records)
unfolding nodup contains
expire_first id order records r = record {
  listed = λ j. ground (arith, r.listed j, r.once, lookup-delete id j records, eq_iff id j);
  once = ground (arith, r.once);
  settled = λ j s e d. r.settled j s (ground (arith, lookup-delete id j records, eq_iff id j)) d;
}

pub expire-IsRetained :
    (limit : ℕ) (order : List Text) (records : Records)
    → IsRetained order records
    → IsRetained (expire limit order records).0 (expire limit order records).1
unfolding expire
expire-IsRetained limit [] records r = r
expire-IsRetained limit (id ∷ order) records r =
    elim (Bool-cases (ltb limit (length (id ∷ order)))) [
      | inl h ↦
          rw h (expire-IsRetained limit order (delete id records) (expire_first id order records r))
      | inr h ↦ rw h r
    ]

pub expire-bound :
    (limit : ℕ) (order : List Text) (records : Records)
    → length (expire limit order records).0 ≤ limit
unfolding expire
expire-bound limit [] records = omega arith
expire-bound limit (id ∷ order) records =
    ground (arith, expire-bound limit order (delete id records))

module _ (test : TaskRecord → Bool)
    (only : (r : TaskRecord) → is_done r.status ≡ true → test r ≡ false) where
  expire_first-is_users :
      (x : Text) (order : List Text) (records : Records) (user id : Text)
      → IsRetained (x ∷ order) records
      → is_users test user id (delete x records) ≡ is_users test user id records
  expire_first-is_users x order records user id r = elim (Option-cases (lookup id records)) [
    | inl e ↦ ground (arith, lookup-delete x id records)
    | inr (y, e) ↦
        ground (
          arith,
          lookup-delete x id records,
          r.listed x,
          eq_iff x id,
          only y,
          contains_head x order,
        )
  ]

-- Only completed records expire.
pub expire-is_users :
    (test : TaskRecord → Bool)
    → ((r : TaskRecord) → is_done r.status ≡ true → test r ≡ false)
    → (limit : ℕ) (order : List Text) (records : Records) (user id : Text)
    → IsRetained order records
    → is_users test user id (expire limit order records).1 ≡ is_users test user id records
unfolding expire
expire-is_users test only limit [] records user id r = refl
expire-is_users test only limit (x ∷ order) records user id r =
    elim (Bool-cases (ltb limit (length (x ∷ order)))) [
      | inl h ↦ rw h (
          expire-is_users test only limit order (delete x records) user id
            (expire_first x order records r)
          ∙ expire_first-is_users test only x order records user id r)
      | inr h ↦ rw h refl
    ]

-- What is not in the order stays.
pub expire_other :
    (limit : ℕ) (order : List Text) (records : Records) (id : Text)
    → contains id order ≡ false
    → lookup id (expire limit order records).1 ≡ lookup id records
unfolding expire contains
expire_other limit [] records id c = refl
expire_other limit (x ∷ order) records id c =
    ground (
      arith,
      expire_other limit order (delete x records) id,
      lookup-delete x id records,
      eq_iff x id,
    )

-- The last of the order stays when older ones expire.
pub expire_last :
    (limit : ℕ) (order : List Text) (records : Records) (id : Text)
    → 0 < limit
    → contains id order ≡ false
    → lookup id (expire limit (order ++ id ∷ []) records).1 ≡ lookup id records
unfolding expire contains
expire_last limit [] records id p c = ground arith
expire_last limit (x ∷ order) records id p c =
    ground (
      arith,
      expire_last limit order (delete x records) id,
      lookup-delete x id records,
      eq_iff x id,
    )
