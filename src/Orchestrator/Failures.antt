-- ===== src/Orchestrator/Failures.antt =====
-- engine.py: what a failed task and a job's time-out leave.
use mathlib.Core.Path.{subst}
use avtomatika.Prelude.{
  ◌+◌, ◌<◌, ◌≤◌, ◌≡◌, ◌⊎◌, inl, inr, refl, sym, String, true, false, Option, none, some, [], ◌∷◌,
  ◌++◌, arith, ltb, ltb→lt, Bool-cases,
}
use avtomatika.Dict.{get, get-put, get-put_self, get-put_at, put}
use avtomatika.Value.{
  num, text, Job, num_or, status_of, Status, failed, quarantined, waiting_for_worker,
}
use avtomatika.Storage.{Memory}
use avtomatika.Storage.Jobs.{get_job_state, save_job_state, quarantine_job}
use avtomatika.Storage.Watch.{add_job_to_watch}
use avtomatika.Executor.{World, Config, Clock, Step, id_of, log_job_event}
use avtomatika.Executor.Creation.{number_of, or_worker_timeout}
use avtomatika.Executor.Outcomes.Retries.{send_job_webhook_memory}
use avtomatika.Orchestrator.{
  has_ended, is_branch, task_info_of, is_picked_up, task_of, timeout_message, log_timeout,
  lost_task, retry_task, retry_found, fail_task, dispatch_again, quarantine_task,
  handle_task_failure, handle_job_timeout,
}

-- The job has ended with the status, as it is stored.
abbrev StoredAs : Option Status → String → Step → Type 0
StoredAs status id (raised, (job', w')) =
    (raised ≡ none)
    × (get_job_state id w'.memory ≡ some job')
    × (status_of (get "status" job') ≡ status)

abbrev counted : Job → Job
counted job = put "retry_count" (num (num_or 0 (get "retry_count" job) + 1)) job

id_of-counted : (job : Job) → id_of (counted job) ≡ id_of job
id_of-counted job = simp (get-put)

task_info_of-counted :
    (task_id : String) (job : Job)
    → task_info_of false task_id (counted job) ≡ task_info_of false task_id job
task_info_of-counted task_id job = simp (get-put)

module _ (config : Config) (dispatch : Job → Job → World → Step) where
  -- The dispatcher is called with a job that is stored, waits for its worker, counts one failure
  -- more, and is watched until the time-out of its task.
  abbrev pub Redispatched : Clock → String → Job → Step → Type 0
  Redispatched clock task_id job left =
      (task_info : Job) × (job' : Job) × (w' : World) × (task_info_of false task_id job
        ≡ some task_info)
      × (left ≡ dispatch job' task_info w')
      × (get_job_state (id_of job) w'.memory ≡ some job')
      × (num_or 0 (get "retry_count" job') ≡ num_or 0 (get "retry_count" job) + 1)
      × (status_of (get "status" job') ≡ some waiting_for_worker)
      × (get (id_of job) w'.memory.watched_jobs
          ≡ some (
              clock.mono
              + or_worker_timeout (number_of (get "timeout_seconds" task_info))
                  config.worker_timeout))

  lost_task-StoredAs :
      (task_id : String) (job : Job) (w : World)
      → StoredAs (some failed) (id_of job) (lost_task config dispatch false task_id job w)
  unfolding lost_task get_job_state save_job_state
  lost_task-StoredAs task_id job w = (
    refl,
    rw (send_job_webhook_memory) (get-put_self (id_of job) _ w.memory.jobs),
    simp (get-put),
  )

  dispatch_again-Redispatched :
      (clock : Clock) (task_id : String) (task_info job : Job) (w : World)
      → task_info_of false task_id job ≡ some task_info
      → Redispatched clock task_id job
          (dispatch_again config dispatch clock false task_id task_info (counted job) w)
  unfolding dispatch_again get_job_state save_job_state add_job_to_watch
  dispatch_again-Redispatched clock task_id task_info job w e = (
    task_info,
    _,
    _,
    e,
    refl,
    get-put_at (id_of (counted job)) (id_of job) _ w.memory.jobs (id_of-counted job),
    simp (get-put),
    simp (get-put),
    get-put_at (id_of (counted job)) (id_of job) _ w.memory.watched_jobs (id_of-counted job),
  )

  -- What is left of a failure of a task that may be tried again.
  abbrev pub Retried : Clock → String → Job → Step → Type 0
  Retried clock task_id job left =
      Redispatched clock task_id job left
      ⊎ ((task_info_of false task_id job ≡ none) × StoredAs (some failed) (id_of job) left)

  -- What is left of a failure at the limit.
  abbrev Quarantined : Memory → Job → Step → Type 0
  Quarantined m job (raised, (job', w')) =
      StoredAs (some quarantined) (id_of job) (raised, (job', w'))
      × (w'.memory.quarantine_queue ≡ m.quarantine_queue ++ id_of job ∷ [])

  quarantine_task-Quarantined :
      (task_id error_message : String) (job : Job) (w : World)
      → Quarantined w.memory job (quarantine_task config dispatch task_id error_message job w)
  unfolding quarantine_task get_job_state save_job_state quarantine_job
  quarantine_task-Quarantined task_id error_message job w = (
    (refl, rw (send_job_webhook_memory) (get-put_self (id_of job) _ w.memory.jobs), simp (get-put)),
    rw (send_job_webhook_memory) refl,
  )

  abbrev pub FailureHandled : Clock → String → Job → Memory → Step → Type 0
  FailureHandled clock task_id job m left =
      let retry_count = num_or 0 (get "retry_count" job) in
      ((retry_count < config.job_max_retries) × Retried clock task_id job left)
      ⊎ ((config.job_max_retries ≤ retry_count) × Quarantined m job left)

  retry_found-Retried :
      (clock : Clock) (task_id : String) (job : Job) (w : World) (found : Option Job)
      → task_info_of false task_id job ≡ found
      → Retried clock task_id job
          (retry_found config dispatch clock false task_id found (counted job) w)
  retry_found-Retried clock task_id job w none e = inr (
    e,
    subst (λ i. StoredAs (some failed) i (lost_task config dispatch false task_id (counted job) w))
        (id_of-counted job) (lost_task-StoredAs task_id (counted job) w),
  )
  retry_found-Retried clock task_id job w (some task_info) e =
      inl (dispatch_again-Redispatched clock task_id task_info job w e)

  retry_task-Retried :
      (clock : Clock) (task_id : String) (job : Job) (w : World)
      → Retried clock task_id job (retry_task config dispatch clock false task_id (counted job) w)
  retry_task-Retried clock task_id job w =
      retry_found-Retried clock task_id job w (task_info_of false task_id (counted job))
        (sym (task_info_of-counted task_id job))

  fail_task-FailureHandled :
      (clock : Clock) (task_id error_message : String) (job : Job) (w : World)
      → FailureHandled clock task_id job w.memory
          (fail_task config dispatch clock false task_id error_message job w)
  unfolding fail_task
  fail_task-FailureHandled clock task_id error_message job w =
      elim (Bool-cases (ltb (num_or 0 (get "retry_count" job)) config.job_max_retries)) [
        | inl below ↦ inl (ltb→lt _ _ below, rw below (retry_task-Retried clock task_id job w))
        | inr beyond ↦
            inr (ground arith, rw beyond (quarantine_task-Quarantined task_id error_message job w))
      ]

  -- What the failure of a task leaves, for a job that has not ended and a task that is not one of
  -- its parallel branches, by the number of the failures before it. Below the limit the dispatcher
  -- is called with the task's description and the job, which is stored with one failure more,
  -- waiting for a worker, and watched until the task's time is over; or the description is lost,
  -- and the job is stored as failed. From the limit on the job is stored as quarantined and listed
  -- last in the quarantine.
  pub handle_task_failure_lem :
      (clock : Clock) (task_id error_message : String) (job : Job) (w : World)
      → has_ended job ≡ false
      → is_branch task_id job ≡ false
      → FailureHandled clock task_id job w.memory
          (handle_task_failure config dispatch clock task_id error_message job w)
  unfolding handle_task_failure
  handle_task_failure_lem clock task_id error_message job w live single =
      rw (live, single) (fail_task-FailureHandled clock task_id error_message job w)

  -- What the time-out of a live job leaves, by whether a worker had picked up its task.
  abbrev pub TimedOut : Clock → Job → World → Step → Type 0
  TimedOut clock job w left =
      let message = timeout_message clock.wall job in
      ((is_picked_up (get "task_picked_up_at" job) ≡ false)
        × (StoredAs (some failed) (id_of job) left)
        × (get "error_message" (left.1.0) ≡ some (text message)))
      ⊎ ((is_picked_up (get "task_picked_up_at" job) ≡ true)
          × FailureHandled clock (task_of job) job w.memory left)

  pub log_timeout_memory :
      (message : String) (job : Job) (w : World) → (log_timeout message job w).memory ≡ w.memory
  unfolding log_timeout log_job_event
  log_timeout_memory message job w = ground arith

  -- What the time-out of a job leaves, for a job that has not ended and whose present task is not
  -- one of its parallel branches. If no worker had picked up the task, the job is stored as failed,
  -- with the message for the deadline that is over; if one had, what is left is that of a failure
  -- of the task.
  pub handle_job_timeout_lem :
      (clock : Clock) (job : Job) (w : World)
      → has_ended job ≡ false
      → is_branch (task_of job) job ≡ false
      → TimedOut clock job w (handle_job_timeout config dispatch clock job w)
  unfolding handle_job_timeout get_job_state save_job_state
  handle_job_timeout_lem clock job w live single =
      let message = timeout_message clock.wall job in
      let w₁ = log_timeout message job w in
      elim (Bool-cases (is_picked_up (get "task_picked_up_at" job))) [
        | inl claimed ↦ inr (
          claimed,
          rw (live, claimed)
              (subst
                (λ m.
                  FailureHandled clock (task_of job) job m
                    (handle_task_failure config dispatch clock (task_of job) message job w₁))
                (log_timeout_memory message job w)
                (handle_task_failure_lem clock (task_of job) message job w₁ live single)),
        )
        | inr open_task ↦ inl (
          open_task,
          rw (live, open_task)
              (
                refl,
                rw (send_job_webhook_memory) (get-put_self (id_of job) _ w₁.memory.jobs),
                simp (get-put),
              ),
          rw (live, open_task) (simp (get-put)),
        )
      ]

  -- An ended job is left alone by both.
  pub failures_skip :
      (clock : Clock) (task_id error_message : String) (job : Job) (w : World)
      → has_ended job ≡ true
      → (handle_task_failure config dispatch clock task_id error_message job w ≡ (none, (job, w)))
        × (handle_job_timeout config dispatch clock job w ≡ (none, (job, w)))
  unfolding handle_task_failure handle_job_timeout
  failures_skip clock task_id error_message job w ended = (rw ended refl, rw ended refl)
