-- ===== src/WorkerService/Results/Presence.antt =====
-- services/worker_service.py: whose task a result is for, and whether it is the job's present one.
use avtomatika.Prelude.{
  ◌≡◌, ◌⊎◌, inl, inr, refl, arith, String, true, false, some, eq_iff, Bool-cases,
}
use avtomatika.Dict.{get}
use avtomatika.Value.{waiting_for_parallel, Job, status_of}
use avtomatika.Executor.{text_or_empty}
use avtomatika.Executor.Outcomes.{is_set}
use avtomatika.WorkerService.Pickup.Ownership.{assigned_to}
use avtomatika.WorkerService.Results.{
  awaits_branches, verify_job_ownership_robust, with_picked_up, is_stale,
}
use avtomatika.WorkerService.Results.Kept.{with_picked_up_lem}

-- The task is assigned to the worker, or to nobody.
abbrev pub IsAssigned : String → String → Job → Type 0
IsAssigned task_id worker_id job =
    (is_set (assigned_to task_id job) ≡ false)
    ⊎ (text_or_empty (assigned_to task_id job) ≡ worker_id)

pub IsAssigned-owner :
    (task_id worker_id : String) (job : Job)
    → verify_job_ownership_robust task_id worker_id job ≡ true
    → IsAssigned task_id worker_id job
unfolding verify_job_ownership_robust
IsAssigned-owner task_id worker_id job e = elim (Bool-cases (is_set (assigned_to task_id job))) [
  | inl set ↦ inr (ground (arith, eq_iff (text_or_empty (assigned_to task_id job)) worker_id))
  | inr unset ↦ inl unset
]

-- The job waits for branches, or it has no present task, or the task is its present one.
abbrev pub IsPresent : String → Job → Type 0
IsPresent task_id job =
    (status_of (get "status" job) ≡ some waiting_for_parallel)
    ⊎ (is_set (get "current_task_id" job) ≡ false)
    ⊎ (text_or_empty (get "current_task_id" job) ≡ task_id)

awaits_branches-status :
    (job : Job)
    → awaits_branches job ≡ true
    → status_of (get "status" job) ≡ some waiting_for_parallel
awaits_branches-status job e = ground arith

pub IsPresent-is_stale :
    (task_id : String) (job : Job) → is_stale task_id job ≡ false → IsPresent task_id job
unfolding is_stale
IsPresent-is_stale task_id job e = elim (Bool-cases (awaits_branches job)) [
  | inl waits ↦ inl (awaits_branches-status job waits)
  | inr single ↦ elim (Bool-cases (is_set (get "current_task_id" job))) [
    | inl set ↦
        inr (inr (ground (arith, eq_iff (text_or_empty (get "current_task_id" job)) task_id)))
    | inr unset ↦ inr (inl unset)
  ]
]

pub with_picked_up-is_stale :
    (task_id : String) (payload job : Job)
    → is_stale task_id (with_picked_up task_id payload job) ≡ is_stale task_id job
unfolding is_stale
with_picked_up-is_stale task_id payload job =
    let same_status = with_picked_up_lem "status" task_id payload job refl refl in
    let same_task = with_picked_up_lem "current_task_id" task_id payload job refl refl in
    ground arith
