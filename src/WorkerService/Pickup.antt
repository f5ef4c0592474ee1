-- ===== src/WorkerService/Pickup.antt =====
-- services/worker_service.py: `get_next_task`, a worker's call for its next task.
pub mod Ownership
use avtomatika.Prelude.{
  ℕ, ◌+◌, String, Bool, true, false, Option, none, some, List, [], ◌∷◌, str_eq, if◌then◌else◌,
}
use avtomatika.Dict
use avtomatika.Value.{Value, num, text, Job}
use avtomatika.Storage.{Memory}
use avtomatika.Storage.Jobs.{update_job_state_atomic}
use avtomatika.Storage.Tasks.{dequeue_task_for_worker}
use avtomatika.Storage.Watch.{add_job_to_watch}
use avtomatika.Executor.{text_or_empty, value_or_null}
use avtomatika.Executor.Creation.{number_of, or_worker_timeout}
use avtomatika.Orchestrator.{is_branch, watch_key}
use avtomatika.WorkerService.{Settings}
use avtomatika.WorkerService.Outcomes.{merge_entry, copy_set}

abbrev pub mark_branch : ℕ → String → String → Job → Job
mark_branch now worker_id task_id job =
    merge_entry "branch_worker_ids" ((task_id, text worker_id) ∷ [])
      (merge_entry "branch_picked_up_at" ((task_id, num now) ∷ []) job)

abbrev pub mark_single : ℕ → String → Job → Job
mark_single now worker_id job =
    Dict.put "task_worker_id" (text worker_id)
      (Dict.put "assigned_worker_id" (text worker_id) (Dict.put "task_picked_up_at" (num now) job))

-- The job, once a worker has its task.
unfoldable pub mark_picked_up : ℕ → String → String → Job → Job
mark_picked_up now worker_id task_id job =
    if is_branch task_id job
    then mark_branch now worker_id task_id job
    else mark_single now worker_id job

-- The deadline for the result, or the time that the task may take from now.
unfoldable pub execution_deadline : Settings → ℕ → Job → ℕ
execution_deadline settings now job = elim (number_of (Dict.get "result_deadline" job)) [
  | some result_deadline ↦ result_deadline
  | none ↦
      now
      + or_worker_timeout (number_of (Dict.get "execution_timeout_seconds" job))
          settings.worker_timeout
]

-- The task with what the job says of its security, its metadata and the skill.
unfoldable enriched : Job → Job → Job
enriched job task =
    copy_set "skill_type" job
      (copy_set "skill_version" job (copy_set "metadata" job (copy_set "security" job task)))

-- `task.get("task_id", job_id)`
abbrev pub task_id_of : Job → String
task_id_of task =
    text_or_empty (some (Dict.get_or "task_id" (value_or_null (Dict.get "job_id" task)) task))

unfoldable pub hand_over : Settings → ℕ → String → Job → Memory → Job × Memory
unfolding mark_picked_up enriched execution_deadline
hand_over settings now worker_id task m =
    let job_id = text_or_empty (Dict.get "job_id" task) in
    let task_id = task_id_of task in
    let (job, m') = update_job_state_atomic job_id (mark_picked_up now worker_id task_id) m in
    if str_eq job_id "" then (task, m) else (
      enriched job task,
      add_job_to_watch (watch_key (is_branch task_id job) job_id task_id)
          (execution_deadline settings now job) m',
    )

abbrev hand_over_found : Settings → ℕ → String → Option Job × Memory → Option Job × Memory
hand_over_found settings now worker_id (none, m) = (none, m)
hand_over_found settings now worker_id (some [], m) = (some [], m)
hand_over_found settings now worker_id (some (e ∷ task), m) =
    let (task', m') = hand_over settings now worker_id (e ∷ task) m in (some task', m')

-- `during` is what others do to the store while the worker waits for a task.
unfoldable get_next_task : Settings → ℕ → String → (Memory → Memory) → Memory → Option Job × Memory
unfolding hand_over
get_next_task settings now worker_id during m =
    hand_over_found settings now worker_id (dequeue_task_for_worker worker_id during m)
