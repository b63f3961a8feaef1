-- ===== src/Tests/Tasks.antt =====
-- A run of the queue of backend/task_queue.py.
use multi_tenant_rag_applica.Config.{get_collection_name}
use multi_tenant_rag_applica.Prelude.{
  ◌≡◌, ◌↔◌, ◌⊎◌, refl, true, false, none, some, List, [], ◌∷◌, nat_eq, list_eq,
}
use multi_tenant_rag_applica.Python.Text.{text, strip_left, is_space, strip, strip_right}
use multi_tenant_rag_applica.Python.Object.{str, int, pos}
use multi_tenant_rag_applica.Python.Exec.{ok, err, key_error, ◌>>=◌}
use multi_tenant_rag_applica.Python.Dict.{lookup, insert, delete}
use multi_tenant_rag_applica.Mappings.Common.{required_identifier, validated_user_id}
use multi_tenant_rag_applica.TaskQueue.{
  TaskQueue, TaskRecord, succeeded, running, Event, enqueued, taken, ended_work, close_begun,
  workers_stopped, returned, fatal, init, run, get, finish, finished, step, live_worker, items_of,
}
use multi_tenant_rag_applica.TaskQueue.Stopping.{IsSound}
use multi_tenant_rag_applica.TaskQueue.Runs.{AreKept, run_queue-IsSound, close_drains}
use multi_tenant_rag_applica.TaskQueue.Outcomes.{get-exact, finish-retained}
use multi_tenant_rag_applica.Tests.Given.{alice, id_1, id_2}

abbrev new_queue : TaskQueue
new_queue = record {
  records = [];
  completed_order = [];
  queues = [];
  workers = [];
  max_completed_records = 1;
  accepting = true;
}

-- The first task of the user runs, and the second waits.
abbrev begun : List Event
begun =
    enqueued (str alice) (str (text "save")) true id_1 1
    ∷ enqueued (str alice) (str (text "delete")) true id_2 2
    ∷ taken alice 3
    ∷ []

abbrev busy : TaskQueue
busy = run new_queue begun

abbrev running_record : TaskRecord
running_record = record {
  task_id = id_1;
  user_id = alice;
  operation = text "save";
  status = running;
  error_code = none;
  error = none;
  created_at = 1;
  completed = false;
  started_at = some 3;
  finished_at = none;
}

-- Both are done, and the queue is closed.
abbrev all_steps : List Event
all_steps =
    enqueued (str alice) (str (text "save")) true id_1 1
    ∷ enqueued (str alice) (str (text "delete")) true id_2 2
    ∷ taken alice 3
    ∷ close_begun
    ∷ ended_work alice 4 returned
    ∷ taken alice 5
    ∷ ended_work alice 6 returned
    ∷ workers_stopped
    ∷ taken alice 7
    ∷ []

abbrev last_record : TaskRecord
last_record = record {
  task_id = id_2;
  user_id = alice;
  operation = text "delete";
  status = succeeded;
  error_code = none;
  error = none;
  created_at = 2;
  completed = true;
  started_at = some 5;
  finished_at = some 6;
}

run_queue-IsSound_example : IsSound busy × AreKept new_queue begun
unfolding init lookup step ◌>>=◌ validated_user_id get_collection_name strip_left is_space
    required_identifier insert
run_queue-IsSound_example = run_queue-IsSound (int (pos 1)) new_queue begun refl refl

close_drains_example : last_record.completed ≡ true
unfolding init lookup step ◌>>=◌ validated_user_id get_collection_name strip_left is_space
    required_identifier insert run live_worker items_of delete
close_drains_example =
    close_drains (int (pos 1)) new_queue all_steps id_2 last_record refl refl refl refl

get-exact_example :
    ((get (str id_1) (str alice) busy).0 ≡ ok running_record
      ↔ (lookup id_1 busy.records ≡ some running_record) × (running_record.user_id ≡ alice))
    × (((s : TaskRecord) × (get (str id_1) (str alice) busy ≡ (ok s, busy)))
        ⊎ (get (str id_1) (str alice) busy ≡ (err key_error, busy)))
unfolding required_identifier strip strip_right strip_left is_space validated_user_id
    get_collection_name
get-exact_example = get-exact (str id_1) (str alice) id_1 alice busy running_record refl refl

-- What the owner of a task reads.
get_owner : get (str id_1) (str alice) busy ≡ (ok running_record, busy)
unfolding get ◌>>=◌ required_identifier strip strip_right strip_left is_space validated_user_id
    get_collection_name lookup run step insert live_worker items_of
get_owner = refl

finish-retained_example :
    lookup id_1 (finish alice 4 returned busy).records ≡ some (finished 4 returned running_record)
unfolding init lookup step ◌>>=◌ validated_user_id get_collection_name strip_left is_space
    required_identifier insert run live_worker items_of
finish-retained_example =
    finish-retained alice id_1 4 returned busy running_record
      (run_queue-IsSound (int (pos 1)) new_queue begun refl refl).0.0 refl refl

-- A fatal exception of the first task: its worker dies, its event is set, and it has no outcome.
abbrev fatally_ended : TaskQueue
fatally_ended = finish alice 4 fatal busy

fatal_record :
    lookup id_1 fatally_ended.records
    ≡ some (record running_record { finished_at = some 4; completed = true })
unfolding init lookup step ◌>>=◌ validated_user_id get_collection_name strip_left is_space
    required_identifier insert run live_worker items_of delete
fatal_record = refl
