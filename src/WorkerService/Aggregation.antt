-- ===== src/WorkerService/Aggregation.antt =====
-- services/worker_service.py: the results of a job's parallel branches, in any order.
use mathlib.Core.List.{Perm}
use mathlib.Core.List.Perm
use avtomatika.Prelude.{◌≡◌, String, true, Option, none, some, List, [], ◌∷◌, ◌++◌}
use avtomatika.Dict.{get}
use avtomatika.Value.{Value, obj, Job, running, from_dict, status_of}
use avtomatika.Storage.{Memory}
use avtomatika.Storage.Jobs.{get_job_state}
use avtomatika.Storage.Watch.{remove_job_from_watch}
use avtomatika.Executor.{value_or_null}
use avtomatika.Orchestrator.{watch_key}
use avtomatika.WorkerService.Results.{accept_branch}
use avtomatika.WorkerService.Branches.{active_of, results_of}

-- The results of branches, each with its branch, as they come in.
unfoldable pub deliver : String → List (String × Job) → Memory → Memory
deliver job_id [] m = m
deliver job_id ((task_id, payload) ∷ results) m =
    deliver job_id results (accept_branch job_id task_id payload m)

-- What a dict of results holds once the others are in.
abbrev result_of : List (String × Job) → String → Option Value → Option Value
result_of results task_id before = elim (get task_id results) [
  | none ↦ before
  | some payload ↦ some (obj (from_dict payload))
]

-- The job goes on in the state that aggregates, once; it holds each result under its branch.
abbrev pub Aggregated : String → Job → List (String × Job) → Memory → Memory → Type 0
Aggregated job_id job results m m' =
    (job' : Job) × (get_job_state job_id m' ≡ some job')
    × (m'.job_queue ≡ m.job_queue ++ job_id ∷ [])
    × (status_of (get "status" job') ≡ some running)
    × (get "current_state" job' ≡ some (value_or_null (get "aggregation_target" job)))
    × (active_of job' ≡ [])
    × ((task_id : String)
        → get task_id (results_of job') ≡ result_of results task_id (get task_id (results_of job)))

abbrev unwatched : String → String → Memory → Memory
unwatched job_id task_id m = remove_job_from_watch (watch_key true job_id task_id) m
