-- ===== src/WorkerService/Outcomes/Transitions.antt =====
-- services/worker_service.py: where a job goes on after its task, and what a repeated result does.
use avtomatika.Prelude.{
  ℕ, ◌≡◌, ◌≢◌, ◌⊎◌, inl, inr, refl, ap, ◌∙◌, arith, String, false, none, some, List, [], ◌∷◌, ◌++◌,
  str_eq, Option-cases,
}
use avtomatika.Dict.{get, get-put, get-put_self, get-put_other}
use avtomatika.Value.{Job, status_of, running, failed}
use avtomatika.Storage.{Memory}
use avtomatika.Storage.Jobs.{get_job_state, save_job_state, enqueue_job}
use avtomatika.Storage.Workers.{update_worker_data}
use avtomatika.Executor.{World, current_state_of}
use avtomatika.WorkerService.{Settings}
use avtomatika.WorkerService.Outcomes.{
  next_state_for, go_on, with_payload, rate_worker, rate_if_named, rewarded, reward, succeeded,
  unhandled, transition,
}
use avtomatika.WorkerService.Branches.{copy_set_lem, merge_nonempty_lem}

pub with_payload_lem :
    (k : String) (payload job : Job)
    → str_eq "state_history" k ≡ false
    → str_eq "data_metadata" k ≡ false
    → str_eq "security" k ≡ false
    → str_eq "metadata" k ≡ false
    → str_eq "timestamp" k ≡ false
    → get k (with_payload payload job) ≡ get k job
unfolding with_payload
with_payload_lem k payload job h d s m t =
    copy_set_lem k "timestamp" payload _ t
    ∙ (merge_nonempty_lem k "metadata" _ _ m
        ∙ (copy_set_lem k "security" payload _ s
            ∙ (merge_nonempty_lem k "data_metadata" _ _ d
                ∙ merge_nonempty_lem k "state_history" _ _ h)))

rate_worker-jobs :
    (worker_id : String) (adjust : ℕ → ℕ) (m : Memory)
    → ((rate_if_named worker_id adjust m).jobs ≡ m.jobs)
      × ((rate_if_named worker_id adjust m).job_queue ≡ m.job_queue)
unfolding rate_worker update_worker_data
rate_worker-jobs worker_id adjust m = (ground arith, ground arith)

-- The job is stored, running in the state, stands last in the queue of jobs, and the others are as
-- they were.
abbrev pub GoesOn : String → String → Memory → World → Type 0
GoesOn next_state job_id m w' =
    (job' : Job) × (get_job_state job_id w'.memory ≡ some job')
    × (current_state_of job' ≡ next_state)
    × (status_of (get "status" job') ≡ some running)
    × (w'.memory.job_queue ≡ m.job_queue ++ job_id ∷ [])
    × ((other : String) → other ≢ job_id → get_job_state other w'.memory ≡ get_job_state other m)

-- The job is stored as failed, no job is enqueued, and the others are as they were.
abbrev pub Fails : String → Memory → World → Type 0
Fails job_id m w' =
    (job' : Job) × (get_job_state job_id w'.memory ≡ some job')
    × (status_of (get "status" job') ≡ some failed)
    × (w'.memory.job_queue ≡ m.job_queue)
    × ((other : String) → other ≢ job_id → get_job_state other w'.memory ≡ get_job_state other m)

module _ (settings : Settings) where
  rewarded-jobs :
      (worker_id : String) (m : Memory)
      → ((rewarded settings worker_id m).jobs ≡ m.jobs)
        × ((rewarded settings worker_id m).job_queue ≡ m.job_queue)
  unfolding rewarded
  rewarded-jobs worker_id m =
      let (jobs, queue) = rate_worker-jobs worker_id (reward settings.reward_success) m in
      (ground arith, ground arith)

  pub succeeded-stored :
      (worker_id next_state job_id : String) (payload job : Job) (w : World)
      → let w' = (succeeded settings worker_id next_state job_id payload job w).1 in
        (get_job_state job_id w'.memory ≡ some (go_on next_state (with_payload payload job)))
        × (w'.memory.job_queue ≡ w.memory.job_queue ++ job_id ∷ [])
  unfolding succeeded get_job_state save_job_state enqueue_job
  succeeded-stored worker_id next_state job_id payload job w =
      let (jobs, queue) = rewarded-jobs worker_id w.memory in
      (get-put_self job_id _ _, ap (λ (l : List String). l ++ job_id ∷ []) queue)

  succeeded-GoesOn :
      (worker_id next_state job_id : String) (payload job : Job) (w : World)
      → GoesOn next_state job_id w.memory
          ((succeeded settings worker_id next_state job_id payload job w).1)
  unfolding succeeded get_job_state save_job_state enqueue_job
  succeeded-GoesOn worker_id next_state job_id payload job w =
      let job' = go_on next_state (with_payload payload job) in
      let (jobs, _) = rewarded-jobs worker_id w.memory in
      let (stored, queued) = succeeded-stored worker_id next_state job_id payload job w in
      (
        job',
        stored,
        simp (get-put),
        simp (get-put),
        queued,
        λ other d. get-put_other job_id other job' _ d ∙ ap (get other) jobs,
      )

  unhandled-Fails :
      (result_status job_id : String) (job : Job) (w : World)
      → Fails job_id w.memory ((unhandled settings result_status job_id job w).1)
  unfolding unhandled get_job_state save_job_state
  unhandled-Fails result_status job_id job w = (
    _,
    get-put_self job_id _ w.memory.jobs,
    simp (get-put),
    refl,
    λ other d. get-put_other job_id other _ w.memory.jobs d,
  )

  -- The result of a task, by whether the task's transitions know its status. If they do, the job is
  -- stored, running in the state that they give, and stands last in the queue of jobs; if not, it
  -- is stored as failed, and no job is enqueued. The other jobs are as they were.
  pub transition_lem :
      (worker_id result_status job_id : String) (payload job : Job) (w : World)
      → let w' = (transition settings worker_id result_status job_id payload job w).1 in
        ((next_state : String) × (next_state_for result_status job ≡ some next_state)
          × GoesOn next_state job_id w.memory w')
        ⊎ ((next_state_for result_status job ≡ none) × Fails job_id w.memory w')
  unfolding transition
  transition_lem worker_id result_status job_id payload job w =
      elim (Option-cases (next_state_for result_status job)) [
        | inl e ↦ inr (e, rw (e, transition) (unhandled-Fails result_status job_id job w))
        | inr (next_state, e) ↦ inl (
          next_state,
          e,
          rw (e, transition) (succeeded-GoesOn worker_id next_state job_id payload job w),
        )
      ]
