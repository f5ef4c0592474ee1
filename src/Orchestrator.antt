-- ===== src/Orchestrator.antt =====
-- engine.py: `OrchestratorEngine`, what it does with a task that failed, a job that timed out and a job
-- that is cancelled.
pub mod Failures
pub mod Cancelling
use Prim.Native.String.{◌++◌ as str_append}
use avtomatika.Prelude.{
  ℕ, ◌+◌, String, Bool, true, false, Option, none, some, List, [], ◌∷◌, ◌++◌, has, str_eq, ltb, leb,
  if◌then◌else◌,
}
use avtomatika.Dict
use avtomatika.Value.{
  Value, null, num, text, state, obj, Job, Status, failed, quarantined, cancelled,
  waiting_for_worker, waiting_for_parallel, from_dict, dict_of, texts_of, num_or, text_of,
  status_of,
}
use avtomatika.Storage.{Memory, Worker}
use avtomatika.Storage.Jobs.{get_job_state, save_job_state, quarantine_job}
use avtomatika.Storage.Watch.{add_job_to_watch, remove_job_from_watch}
use avtomatika.Storage.Workers.{get_worker_info}
use avtomatika.Storage.Keys.{set_task_cancellation_flag}
use avtomatika.Executor.{
  World, Config, Clock, Engine, Step, value_or_null, text_or_empty, id_of, current_state_of,
  client_token_of, log_job_event, in_memory,
}
use avtomatika.Executor.Outcomes.{is_set, send_job_webhook}
use avtomatika.Executor.Creation.{number_of, or_worker_timeout}
use avtomatika.Executor.Process.{is_terminal}

abbrev pub has_ended : Job → Bool
has_ended job = is_terminal (status_of (Dict.get "status" job))

-- `task_id in (job_state.get("active_branches") or [])`
abbrev pub is_branch : String → Job → Bool
is_branch task_id job = has task_id (texts_of (Dict.get "active_branches" job))

-- `f"{job_id}:{task_id}"` for a branch, else the job's id
abbrev pub watch_key : Bool → String → String → String
watch_key is_parallel job_id task_id =
    if is_parallel then str_append job_id (str_append ":" task_id) else job_id

abbrev retry_count_key : Bool → String → String
retry_count_key is_parallel task_id =
    if is_parallel then str_append "retry_count_" task_id else "retry_count"

-- The task's description in the job; `none` where it is missing or empty.
abbrev nonempty : Job → Option Job
nonempty [] = none
nonempty (e ∷ task_info) = some (e ∷ task_info)

abbrev pub task_info_of : Bool → String → Job → Option Job
task_info_of is_parallel task_id job = nonempty (
    if is_parallel
    then dict_of (Dict.get task_id (dict_of (Dict.get "parallel_tasks_info" job)))
    else dict_of (Dict.get "current_task_info" job))

-- `deadline and now >= deadline`
abbrev is_over : ℕ → Option ℕ → Bool
is_over now none = false
is_over now (some deadline) = if ltb 0 deadline then leb deadline now else false

-- `picked_up is not None`
abbrev pub is_picked_up : Option Value → Bool
is_picked_up none = false
is_picked_up (some null) = false
is_picked_up (some _) = true

unfoldable pub timeout_message : ℕ → Job → String
timeout_message now job =
    if is_picked_up (Dict.get "task_picked_up_at" job)
    then "Worker task timed out: execution/result deadline reached."
    else if is_over now (number_of (Dict.get "dispatch_deadline" job))
    then "Worker task timed out while waiting in queue (dispatch timeout)."
    else if is_over now (number_of (Dict.get "result_deadline" job))
    then "Worker task timed out: result deadline reached before pickup."
    else "Worker task timed out."

-- The history's event for the worker that had the task, if one had.
unfoldable pub log_timeout : String → Job → World → World
log_timeout message job w =
    let worker_id = text_or_empty (Dict.get "task_worker_id" job) in
    if str_eq worker_id ""
    then w
    else log_job_event "task_finished" (current_state_of job)
        (("worker_id", text worker_id)
          ∷ (
            "context_snapshot",
            obj (
                from_dict (
                  ("status", text "failure")
                  ∷ ("error", text "timeout")
                  ∷ ("message", text message)
                  ∷ [])),
          )
          ∷ [])
        job w

-- `str(job_state.get("current_task_id") or job_id)`
abbrev pub task_of : Job → String
task_of job =
    if is_set (Dict.get "current_task_id" job)
    then text_or_empty (Dict.get "current_task_id" job)
    else id_of job

module _ (config : Config) (dispatch : Job → Job → World → Step) where
  -- A task whose description is lost fails its job; a branch is left as it is.
  unfoldable pub lost_task : Bool → String → Job → World → Step
  lost_task is_parallel task_id job w =
      let message : Value =
        text (str_append "Cannot retry " (str_append task_id ": original task info not found.")) in
      let job' = Dict.put "error_message" message (Dict.put "status" (state failed) job) in
      if is_parallel then (none, (job, w)) else (
        none,
        (
          job',
          send_job_webhook config "job_failed" job' (in_memory (save_job_state (id_of job) job') w),
        ),
      )

  -- The task is watched anew, the job waits for it, and it is dispatched again.
  unfoldable pub dispatch_again : Clock → Bool → String → Job → Job → World → Step
  dispatch_again clock is_parallel task_id task_info job w =
      let job_id = id_of job in
      let timeout_at =
        clock.mono
        + or_worker_timeout (number_of (Dict.get "timeout_seconds" task_info))
            config.worker_timeout in
      let key = watch_key is_parallel job_id task_id in
      let job' =
        if is_parallel
        then Dict.put "status" (state waiting_for_parallel) job
        else Dict.put "task_dispatched_at" (num clock.mono)
            (Dict.put "status" (state waiting_for_worker) job) in
      dispatch job' task_info (
        in_memory
          (λ m. save_job_state job_id job' (
            add_job_to_watch key timeout_at
              (if is_parallel then remove_job_from_watch key m else m)))
          w)

  -- The task has failed too often: its job ends in the quarantine. The code's message also has the
  -- number of the attempts.
  unfoldable pub quarantine_task : String → String → Job → World → Step
  quarantine_task task_id error_message job w =
      let message : Value =
        text (str_append "Task " (str_append task_id (str_append " failed: " error_message))) in
      let job' = Dict.put "error_message" message (Dict.put "status" (state quarantined) job) in
      (
        none,
        (
          job',
          send_job_webhook config "job_quarantined" job'
              (in_memory (λ m. quarantine_job (id_of job) (save_job_state (id_of job) job' m)) w),
        ),
      )

  -- The task is tried again, if its description is there.
  abbrev pub retry_found : Clock → Bool → String → Option Job → Job → World → Step
  retry_found clock is_parallel task_id none job w = lost_task is_parallel task_id job w
  retry_found clock is_parallel task_id (some task_info) job w =
      dispatch_again clock is_parallel task_id task_info job w

  abbrev pub retry_task : Clock → Bool → String → Job → World → Step
  retry_task clock is_parallel task_id job w =
      retry_found clock is_parallel task_id (task_info_of is_parallel task_id job) job w

  unfoldable pub fail_task : Clock → Bool → String → String → Job → World → Step
  fail_task clock is_parallel task_id error_message job w =
      let key = retry_count_key is_parallel task_id in
      let retry_count = num_or 0 (Dict.get key job) in
      if ltb retry_count config.job_max_retries
      then retry_task clock is_parallel task_id (Dict.put key (num (retry_count + 1)) job) w
      else quarantine_task task_id error_message job w

  unfoldable pub handle_task_failure : Clock → String → String → Job → World → Step
  handle_task_failure clock task_id error_message job w =
      if has_ended job
      then (none, (job, w))
      else fail_task clock (is_branch task_id job) task_id error_message job w

  -- A task that no worker has picked up fails its job; the others are failures of their task.
  unfoldable pub handle_job_timeout : Clock → Job → World → Step
  handle_job_timeout clock job w =
      let message = timeout_message clock.wall job in
      let w₁ = log_timeout message job w in
      let job' = Dict.put "error_message" (text message) (Dict.put "status" (state failed) job) in
      let ended =
        send_job_webhook config "job_failed" job'
          (in_memory (save_job_state (id_of job) job') w₁) in
      if has_ended job
      then (none, (job, w))
      else if is_picked_up (Dict.get "task_picked_up_at" job)
      then handle_task_failure clock (task_of job) message job w₁
      else (none, (job', ended))

-- The flag that the worker of the task reads, if the job has a task.
unfoldable pub flag_task : ℕ → String → Memory → Memory
flag_task now task_id m = if str_eq task_id "" then m else set_task_cancellation_flag now task_id m

-- `command_cancel_task` is the text of rxon's `COMMAND_CANCEL_TASK`.
module _ (command_cancel_task : String) where
  -- The command for a worker with a web socket; a worker without one is not told.
  unfoldable pub send_cancel : Option Worker → String → Value → String → World → World
  send_cancel none worker_id task_id job_id w = w
  send_cancel (some worker) worker_id task_id job_id w =
      if worker.websockets
      then record w {
        commands =
            w.commands
            ++ (
              worker_id,
              ("command", text command_cancel_task)
                  ∷ ("task_id", task_id)
                  ∷ ("job_id", text job_id)
                  ∷ [],
            )
              ∷ [];
      }
      else w

  -- The worker that has the task is told, if one has it.
  unfoldable pub tell_worker : String → Value → String → World → World
  unfolding send_cancel
  tell_worker worker_id task_id job_id w =
      if str_eq worker_id ""
      then w
      else send_cancel (get_worker_info worker_id w.memory) worker_id task_id job_id w

  -- The job that the store holds under the id.
  unfoldable pub cancel_found : ℕ → String → Option Job → World → Bool × World
  cancel_found now job_id none w = (false, w)
  cancel_found now job_id (some []) w = (false, w)
  cancel_found now job_id (some (e ∷ rest)) w =
      let job = e ∷ rest in
      let task_id = text_or_empty (Dict.get "current_task_id" job) in
      let w' =
        in_memory
          (λ m.
            save_job_state job_id (Dict.put "status" (state cancelled) job)
              (flag_task now task_id m))
          w in
      if has_ended job then (false, w) else (
        true,
        tell_worker (text_or_empty (Dict.get "task_worker_id" job))
            (value_or_null (Dict.get "current_task_id" job)) job_id w',
      )

  -- The result tells whether the job was cancelled.
  unfoldable pub cancel_job : ℕ → String → World → Bool × World
  cancel_job now job_id w = cancel_found now job_id (get_job_state job_id w.memory) w
