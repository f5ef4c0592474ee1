-- ===== src/Tests/EngineTests.antt =====
-- The failures, time-outs and cancellations of engine.py at concrete inputs.
use avtomatika.Prelude.{◌≡◌, ◌≢◌, refl, arith, true, some, [], ◌∷◌}
use avtomatika.Dict.{get}
use avtomatika.Value.{num, text, state, obj, Job, from_dict, waiting_for_worker}
use avtomatika.Storage.Jobs.{get_job_state}
use avtomatika.Executor.{World, in_memory}
use avtomatika.Executor.Process.{is_terminal}
use avtomatika.Orchestrator.{task_of, handle_task_failure, handle_job_timeout, cancel_job}
use avtomatika.Orchestrator.Failures.{
  handle_task_failure_lem, handle_job_timeout_lem, FailureHandled, TimedOut, Redispatched,
}
use avtomatika.Orchestrator.Cancelling.{
  cancelled_job, cancel_job-Cancelled, cancel_job-Redispatched, Cancelled,
}
use avtomatika.Tests.ExecutorTests.{config, clock, world, dispatch}

abbrev step : Job
step = ("type", text "step") ∷ ("timeout_seconds", num 30) ∷ []

-- The worker "w" has picked up the task "t" of the job "c".
abbrev pub waiting : Job
waiting =
    ("id", text "c")
    ∷ ("status", state waiting_for_worker)
    ∷ ("current_state", text "begin")
    ∷ ("current_task_id", text "t")
    ∷ ("task_picked_up_at", num 7)
    ∷ ("task_worker_id", text "w")
    ∷ ("assigned_worker_id", text "w")
    ∷ ("retry_count", num 1)
    ∷ ("current_task_info", obj (from_dict step))
    ∷ ("current_task_transitions", obj (from_dict (("success", text "done") ∷ [])))
    ∷ ("current_task_event_transitions", obj (from_dict (("alarm", text "alarmed") ∷ [])))
    ∷ []

abbrev pub waiting_world : World
waiting_world = in_memory (λ m. record m { jobs = ("c", waiting) ∷ [] }) world

pub waiting-not_empty : waiting ≢ []
waiting-not_empty e = grind (arith)

handle_task_failure_lem_example :
    FailureHandled config dispatch clock "t" waiting waiting_world.memory
      (handle_task_failure config dispatch clock "t" "boom" waiting waiting_world)
unfolding get is_terminal
handle_task_failure_lem_example =
    handle_task_failure_lem config dispatch clock "t" "boom" waiting waiting_world refl refl

handle_job_timeout_lem_example :
    TimedOut config dispatch clock waiting waiting_world
      (handle_job_timeout config dispatch clock waiting waiting_world)
unfolding get is_terminal
handle_job_timeout_lem_example =
    handle_job_timeout_lem config dispatch clock waiting waiting_world refl refl

cancel_job-Cancelled_example :
    Cancelled "c" waiting waiting_world (cancel_job "cancel_task" 5 "c" waiting_world)
unfolding get get_job_state is_terminal
cancel_job-Cancelled_example =
    cancel_job-Cancelled "cancel_task" 5 "c" waiting waiting_world refl waiting-not_empty refl

cancel_job-Redispatched_example :
    let (done, w') = cancel_job "cancel_task" 5 "c" waiting_world in
    let job' = cancelled_job waiting in
    (done ≡ true)
    × (get_job_state "c" w'.memory ≡ some job')
    × Redispatched config dispatch clock
        (task_of job')
        job'
        (handle_job_timeout config dispatch clock job' w')
unfolding get get_job_state is_terminal
cancel_job-Redispatched_example =
    cancel_job-Redispatched "cancel_task" config dispatch 5 clock "c" step waiting waiting_world
      refl refl refl refl (omega arith) refl
