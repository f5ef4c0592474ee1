-- ===== src/WorkerService/Pickup/Ownership.antt =====
-- services/worker_service.py: whose a task is once a worker has picked it up.
use avtomatika.Prelude.{
  ℕ, ◌≡◌, ◌≢◌, refl, ◌∙◌, String, Option, some, str_eq, str_ne, eq_refl, Bool-cases, inl, inr,
  if◌then◌else◌,
}
use avtomatika.Dict.{get, get-put, get-put_self}
use avtomatika.Value.{Value, text, Job, dict_of, to_dict-from_dict, update}
use avtomatika.Storage.{Memory}
use avtomatika.Storage.Jobs.{get_job_state, save_job_state, update_job_state_atomic-found}
use avtomatika.Storage.Watch.{add_job_to_watch}
use avtomatika.Executor.{text_or_empty}
use avtomatika.Orchestrator.{is_branch, watch_key}
use avtomatika.WorkerService.{Settings}
use avtomatika.WorkerService.Results.{verify_job_ownership_robust}
use avtomatika.WorkerService.Pickup.{
  mark_picked_up, mark_branch, mark_single, execution_deadline, hand_over, task_id_of,
}

abbrev pub assigned_to : String → Job → Option Value
assigned_to task_id job =
    if is_branch task_id job
    then get task_id (dict_of (get "branch_worker_ids" job))
    else get "assigned_worker_id" job

pub assigned-owner :
    (task_id worker_id who : String) (job : Job)
    → worker_id ≢ ""
    → assigned_to task_id job ≡ some (text worker_id)
    → verify_job_ownership_robust task_id who job ≡ str_eq worker_id who
unfolding verify_job_ownership_robust
assigned-owner task_id worker_id who job n e = rw (e, str_ne worker_id "" n) refl

mark_branch-is_branch :
    (now : ℕ) (worker_id task_id : String) (job : Job)
    → is_branch task_id (mark_branch now worker_id task_id job) ≡ is_branch task_id job
mark_branch-is_branch now worker_id task_id job = simp (get-put)

mark_branch-worker :
    (now : ℕ) (worker_id task_id : String) (job : Job)
    → get task_id (dict_of (get "branch_worker_ids" (mark_branch now worker_id task_id job)))
      ≡ some (text worker_id)
unfolding update
mark_branch-worker now worker_id task_id job = simp (get-put, to_dict-from_dict, eq_refl)

mark_single-is_branch :
    (now : ℕ) (worker_id task_id : String) (job : Job)
    → is_branch task_id (mark_single now worker_id job) ≡ is_branch task_id job
mark_single-is_branch now worker_id task_id job = simp (get-put)

mark_picked_up-assigned_to :
    (now : ℕ) (worker_id task_id : String) (job : Job)
    → assigned_to task_id (mark_picked_up now worker_id task_id job) ≡ some (text worker_id)
unfolding mark_picked_up
mark_picked_up-assigned_to now worker_id task_id job = elim (Bool-cases (is_branch task_id job)) [
  | inl b ↦ rw b (
      rw (mark_branch-is_branch now worker_id task_id job ∙ b)
        (mark_branch-worker now worker_id task_id job))
  | inr b ↦ rw b (rw (mark_single-is_branch now worker_id task_id job ∙ b) (simp (get-put)))
]

-- When the task of a stored job is handed over to a worker with a name, the worker owns the task
-- afterwards and no other does, whether the task is a branch or the job's only one, and the job or
-- the branch is watched until its deadline.
pub hand_over-owner :
    (settings : Settings) (now : ℕ) (worker_id : String) (task job : Job) (m : Memory)
    → let job_id = text_or_empty (get "job_id" task) in
      let task_id = task_id_of task in
      let m' = (hand_over settings now worker_id task m).1 in
      worker_id ≢ ""
      → job_id ≢ ""
      → get_job_state job_id m ≡ some job
      → (job' : Job) × (get_job_state job_id m' ≡ some job')
        × ((who : String) → verify_job_ownership_robust task_id who job' ≡ str_eq worker_id who)
        × (get (watch_key (is_branch task_id job') job_id task_id) m'.watched_jobs
            ≡ some (execution_deadline settings now job'))
unfolding hand_over add_job_to_watch get_job_state save_job_state
hand_over-owner settings now worker_id task job m n j found =
    let job_id = text_or_empty (get "job_id" task) in
    let task_id = task_id_of task in
    let mark = mark_picked_up now worker_id task_id in
    (
      mark job,
      rw (str_ne job_id "" j, update_job_state_atomic-found job_id mark job m found)
          (get-put_self job_id (mark job) m.jobs),
      λ who.
          assigned-owner task_id worker_id who (mark job) n
            (mark_picked_up-assigned_to now worker_id task_id job),
      rw (str_ne job_id "" j, update_job_state_atomic-found job_id mark job m found)
          (get-put_self (watch_key (is_branch task_id (mark job)) job_id task_id) _ m.watched_jobs),
    )
