-- ===== src/TaskQueue/State.antt =====
-- What backend/task_queue.py stores: the records of the tasks, the users' queues and workers.
use multi_tenant_rag_applica.Prelude.{ℕ, Bool, Option, List}
use multi_tenant_rag_applica.Python.Text.{Text, text}
use multi_tenant_rag_applica.Python.Dict.{Dict}

pub data Status : Type 0 where
  queued running succeeded failed : Status

pub data ErrorCode : Type 0 where
  task_cancelled task_failed : ErrorCode

-- `_PUBLIC_TASK_ERROR`
abbrev pub public_task_error : Text
public_task_error = text "Background operation failed. Retry the original operation."

-- `_PUBLIC_TASK_CANCELLED`
abbrev pub public_task_cancelled : Text
public_task_cancelled = text "Background operation was cancelled. Retry the original operation."

-- `_TaskRecord`, without its `work_factory`, whose outcome comes with the step that ends the work.
pub record TaskRecord : Type 0 where
  pub task_id : Text
  pub user_id : Text
  pub operation : Text
  pub status : Status
  pub error_code : Option ErrorCode
  pub error : Option Text
  pub created_at : ℕ
  pub completed : Bool
  pub started_at : Option ℕ
  pub finished_at : Option ℕ

pub data Item : Type 0 where
  stop : Item
  task : Text → Item

-- A worker waits in `queue.get()`, runs a task, has returned at `_STOP`, or was ended by an
-- exception.
pub data Worker : Type 0 where
  waiting ended died : Worker
  working : Text → Worker

pub record TaskQueue : Type 0 where
  pub records : Dict Text TaskRecord
  pub completed_order : List Text
  pub queues : Dict Text (List Item)
  pub workers : Dict Text Worker
  pub max_completed_records : ℕ
  pub accepting : Bool
