-- ===== src/Orchestrator/Cancelling.antt =====
-- engine.py: which jobs `cancel_job` cancels, and what a cancelled job still goes through.
use avtomatika.Prelude.{
  ℕ, ◌<◌, ◌≡◌, ◌≢◌, inl, inr, refl, sym, ap, ◌∙◌, arith, String, Bool, true, false, Option, none,
  some, [], ◌∷◌,
}
use avtomatika.Dict.{get, get-put, get-put_self, get-put_other, put}
use avtomatika.Value.{Value, state, Job, num_or, cancelled}
use avtomatika.Storage.{Memory, Worker}
use avtomatika.Storage.Jobs.{get_job_state, save_job_state}
use avtomatika.Storage.Workers.{get_worker_info}
use avtomatika.Storage.Keys.{increment_key_with_ttl, set_task_cancellation_flag}
use avtomatika.Executor.{World, Config, Clock, Step, text_or_empty}
use avtomatika.Executor.Process.{is_terminal}
use avtomatika.Orchestrator.{
  flag_task, tell_worker, has_ended, is_branch, task_info_of, is_picked_up, task_of,
  handle_job_timeout, send_cancel, cancel_found, cancel_job,
}
use avtomatika.Orchestrator.Failures.{Redispatched, handle_job_timeout_lem}

abbrev pub cancelled_job : Job → Job
cancelled_job job = put "status" (state cancelled) job

-- The job is cancelled, it is neither enqueued nor watched otherwise than before, and the other
-- jobs are as they were.
abbrev pub Cancelled : String → Job → World → Bool × World → Type 0
Cancelled job_id job w (done, w') =
    (done ≡ true)
    × (get_job_state job_id w'.memory ≡ some (cancelled_job job))
    × (w'.memory.job_queue ≡ w.memory.job_queue)
    × (w'.memory.watched_jobs ≡ w.memory.watched_jobs)
    × ((other : String)
        → other ≢ job_id
        → get_job_state other w'.memory ≡ get_job_state other w.memory)

flag_task_memory :
    (now : ℕ) (task_id : String) (m : Memory)
    → ((flag_task now task_id m).jobs ≡ m.jobs)
      × ((flag_task now task_id m).job_queue ≡ m.job_queue)
      × ((flag_task now task_id m).watched_jobs ≡ m.watched_jobs)
unfolding flag_task set_task_cancellation_flag increment_key_with_ttl
flag_task_memory now task_id m = (ground arith, ground arith, ground arith)

module _ (command_cancel_task : String) where
  send_cancel_memory :
      (found : Option Worker) (worker_id : String) (task_id : Value) (job_id : String) (w : World)
      → (send_cancel command_cancel_task found worker_id task_id job_id w).memory ≡ w.memory
  unfolding send_cancel
  send_cancel_memory none worker_id task_id job_id w = refl
  send_cancel_memory (some worker) worker_id task_id job_id w = ground arith

  tell_worker_memory :
      (worker_id : String) (task_id : Value) (job_id : String) (w : World)
      → (tell_worker command_cancel_task worker_id task_id job_id w).memory ≡ w.memory
  unfolding tell_worker
  tell_worker_memory worker_id task_id job_id w =
      ground
        (arith, send_cancel_memory (get_worker_info worker_id w.memory) worker_id task_id job_id w)

  cancel_found-Cancelled :
      (now : ℕ) (job_id : String) (job : Job) (w : World)
      → job ≢ []
      → has_ended job ≡ false
      → Cancelled job_id job w (cancel_found command_cancel_task now job_id (some job) w)
  unfolding cancel_found get_job_state save_job_state
  cancel_found-Cancelled now job_id [] w n live = grind arith
  cancel_found-Cancelled now job_id (e ∷ job) w n live =
      let task_id = text_or_empty (get "current_task_id" (e ∷ job)) in
      let (jobs, queue, watched) = flag_task_memory now task_id w.memory in
      let m = flag_task now task_id w.memory in
      rw (live, tell_worker_memory)
        (
          refl,
          get-put_self job_id (cancelled_job (e ∷ job)) m.jobs,
          queue,
          watched,
          λ other d.
              get-put_other job_id other (cancelled_job (e ∷ job)) m.jobs d ∙ ap (get other) jobs,
        )

  -- A job of the store that has not ended is cancelled when it is asked: the answer is true, the
  -- job is stored with the status "cancelled", it is neither enqueued nor watched otherwise than
  -- before, and the other jobs are as they were.
  pub cancel_job-Cancelled :
      (now : ℕ) (job_id : String) (job : Job) (w : World)
      → get_job_state job_id w.memory ≡ some job
      → job ≢ []
      → has_ended job ≡ false
      → Cancelled job_id job w (cancel_job command_cancel_task now job_id w)
  unfolding cancel_job
  cancel_job-Cancelled now job_id job w found n live =
      rw found (cancel_found-Cancelled now job_id job w n live)

  cancel_found-refuses :
      (now : ℕ) (job_id : String) (found : Option Job) (w : World)
      → ((job : Job) → found ≡ some job → job ≢ [] → has_ended job ≡ true)
      → cancel_found command_cancel_task now job_id found w ≡ (false, w)
  unfolding cancel_found
  cancel_found-refuses now job_id none w h = refl
  cancel_found-refuses now job_id (some []) w h = refl
  cancel_found-refuses now job_id (some (e ∷ job)) w h =
      rw (h (e ∷ job) refl (λ n. grind arith)) refl

  pub cancel_job-refuses :
      (now : ℕ) (job_id : String) (w : World)
      → ((job : Job) → get_job_state job_id w.memory ≡ some job → job ≢ [] → has_ended job ≡ true)
      → cancel_job command_cancel_task now job_id w ≡ (false, w)
  unfolding cancel_job
  cancel_job-refuses now job_id w h =
      cancel_found-refuses now job_id (get_job_state job_id w.memory) w h

  module _ (config : Config) (dispatch : Job → Job → World → Step) where
    picked_up-Redispatched :
        (clock : Clock) (task_info job : Job) (w : World)
        → has_ended job ≡ false
        → is_branch (task_of job) job ≡ false
        → is_picked_up (get "task_picked_up_at" job) ≡ true
        → num_or 0 (get "retry_count" job) < config.job_max_retries
        → task_info_of false (task_of job) job ≡ some task_info
        → Redispatched config dispatch clock
            (task_of job)
            job
            (handle_job_timeout config dispatch clock job w)
    picked_up-Redispatched clock task_info job w live single claimed below info =
        elim (handle_job_timeout_lem config dispatch clock job w live single) [
          | inl (open_task, _, _) ↦ ground (arith, sym claimed ∙ open_task)
          | inr (_, inr (beyond, _)) ↦ ground arith
          | inr (_, inl (_, inr (lost, _))) ↦ ground (arith, sym lost ∙ info)
          | inr (_, inl (_, inl again)) ↦ again
        ]

    picked_up-not_empty : (job : Job) → is_picked_up (get "task_picked_up_at" job) ≡ true → job ≢ []
    unfolding get
    picked_up-not_empty [] claimed n = cc
    picked_up-not_empty (e ∷ job) claimed n = grind arith

    -- A job that is cancelled while a worker has its task, and whose task is not one of parallel
    -- branches and has failed less often than the limit: the answer is true and the job is stored
    -- as cancelled, and when its time is over the task is dispatched again, with the job stored as
    -- waiting for a worker.
    pub cancel_job-Redispatched :
        (now : ℕ) (clock : Clock) (job_id : String) (task_info job : Job) (w : World)
        → get_job_state job_id w.memory ≡ some job
        → has_ended job ≡ false
        → is_branch (task_of job) job ≡ false
        → is_picked_up (get "task_picked_up_at" job) ≡ true
        → num_or 0 (get "retry_count" job) < config.job_max_retries
        → task_info_of false (task_of job) job ≡ some task_info
        → let (done, w') = cancel_job command_cancel_task now job_id w in
          let job' = cancelled_job job in
          (done ≡ true)
          × (get_job_state job_id w'.memory ≡ some job')
          × Redispatched config dispatch clock
              (task_of job')
              job'
              (handle_job_timeout config dispatch clock job' w')
    unfolding is_terminal
    cancel_job-Redispatched now clock job_id task_info job w found live single claimed below info =
        let job' = cancelled_job job in
        let (done, stored, _, _, _) =
          cancel_job-Cancelled now job_id job w found (picked_up-not_empty job claimed) live in
        let same_branch : is_branch (task_of job') job' ≡ is_branch (task_of job) job =
          simp (get-put) in
        let same_claim : is_picked_up (get "task_picked_up_at" job')
            ≡ is_picked_up (get "task_picked_up_at" job) =
          simp (get-put) in
        let same_count : num_or 0 (get "retry_count" job') ≡ num_or 0 (get "retry_count" job) =
          simp (get-put) in
        let same_info : task_info_of false (task_of job') job'
            ≡ task_info_of false (task_of job) job =
          simp (get-put) in
        (
          done,
          stored,
          picked_up-Redispatched clock task_info job'
              (cancel_job command_cancel_task now job_id w).1 (simp (get-put))
              (same_branch ∙ single) (same_claim ∙ claimed) (omega (arith, below, same_count))
              (same_info ∙ info),
        )
