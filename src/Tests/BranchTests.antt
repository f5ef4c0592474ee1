-- ===== src/Tests/BranchTests.antt =====
-- Parallel branches and events of services/worker_service.py at concrete inputs.
use Prim.Native.String.{◌++◌ as str_append}
use mathlib.Core.List.Perm
use avtomatika.Prelude.{◌≡◌, ◌≢◌, refl, String, true, some, none, [], ◌∷◌}
use avtomatika.Dict.{get}
use avtomatika.Value.{
  text, state, obj, arr, Job, null, from_dict, from_texts, waiting_for_parallel, running, status_of,
}
use avtomatika.Storage.{Memory, empty}
use avtomatika.Storage.Jobs.{get_job_state}
use avtomatika.Executor.{current_state_of}
use avtomatika.WorkerService.{WorkerEvent}
use avtomatika.WorkerService.Results.{is_stale}
use avtomatika.WorkerService.Events.{supersede, event_transition}
use avtomatika.WorkerService.Events.Superseding.{supersede_lem}
use avtomatika.Tests.EngineTests.{waiting}

-- The branches "a" and "b" are under way.
abbrev branching : Job
branching =
    ("id", text "c")
    ∷ ("status", state waiting_for_parallel)
    ∷ ("aggregation_target", text "gather")
    ∷ ("active_branches", arr (from_texts ("a" ∷ ("b" ∷ []))))
    ∷ ("aggregation_results", obj (from_dict []))
    ∷ []

abbrev memory : Memory
memory = record empty { jobs = ("c", branching) ∷ ("w", waiting) ∷ [] }

abbrev first_result : Job
first_result = ("status", text "success") ∷ []

abbrev second_result : Job
second_result = ("status", text "failure") ∷ []

abbrev alarm : WorkerEvent
alarm = record {
  event_id = "1";
  event_type = "alarm";
  worker_id = "x";
  origin_worker_id = "x";
  target_job_id = some "w";
  target_task_id = none;
  payload = [];
  bubbling_chain = [];
  security = null;
  metadata = null;
  timestamp = none;
}

supersede_lem_example :
    let m' = supersede alarm memory in
    (job' : Job) × (get_job_state "w" m' ≡ some job')
    × (current_state_of job' ≡ "alarmed")
    × (status_of (get "status" job') ≡ some running)
    × (m'.job_queue ≡ "w" ∷ [])
    × (get "w" m'.watched_jobs ≡ none)
    × ((task_id : String)
        → task_id ≢ str_append "superseded_by_event:" "1"
        → is_stale task_id job' ≡ true)
unfolding get get_job_state event_transition
supersede_lem_example = supersede_lem alarm "w" "alarmed" waiting memory refl refl refl
