-- ===== src/WorkerService/Outcomes/Penalties.antt =====
-- services/worker_service.py: an error that will not pass, and the worker's reputation.
use avtomatika.Prelude.{ℕ, ◌-◌, ◌≡◌, ◌≢◌, refl, ap, ◌∙◌, String, true, some, [], ◌∷◌, ◌++◌, str_ne}
use avtomatika.Dict.{get, put, get-put, get-put_self}
use avtomatika.Value.{Job, status_of, quarantined}
use avtomatika.Storage.{Memory, Worker}
use avtomatika.Storage.Jobs.{get_job_state, save_job_state, quarantine_job}
use avtomatika.Storage.Workers.{
  get_worker_info, update_worker_data, update_found, changed, full_reputation, or_else,
}
use avtomatika.Executor.{World, Config, Clock, Step, id_of, text_or_empty}
use avtomatika.WorkerService.{Rxon, Settings}
use avtomatika.WorkerService.Outcomes.{
  accepted, is_permanent, penalty_of, rate_worker, rate_found, reputation_update, penalise,
  quarantine_permanently, handle_failed_task,
}

-- The worker is rated down by the penalty, to 0 at the least.
abbrev pub RatedDown : ℕ → Worker → String → Memory → Type 0
RatedDown penalty before worker_id m =
    (after : Worker) × (get_worker_info worker_id m ≡ some after)
    × (after.reputation ≡ some (or_else before.reputation full_reputation - penalty))

abbrev rated : (ℕ → ℕ) → Worker → Worker
rated adjust info =
    changed (reputation_update (adjust (or_else info.reputation full_reputation))) info

rate_worker-found :
    (worker_id : String) (adjust : ℕ → ℕ) (info : Worker) (m : Memory)
    → get_worker_info worker_id m ≡ some info
    → rate_worker worker_id adjust m
      ≡ record m { workers = put worker_id (rated adjust info) m.workers }
unfolding rate_worker update_worker_data get_worker_info
rate_worker-found worker_id adjust info m found =
    let changes = reputation_update (adjust (or_else info.reputation full_reputation)) in
    ap (λ f. rate_found worker_id adjust f m) found
    ∙ ap (λ f. (update_found worker_id changes f m).1) found

module _ (settings : Settings) (rxon : Rxon) (config : Config)
    (dispatch : Job → Job → World → Step) where
  -- A failure with a code that will not pass, of a task that a known worker has: the job is stored
  -- as quarantined and listed last in the quarantine, no job is enqueued, and the worker's
  -- reputation is less by the penalty for the code, but not below 0.
  pub handle_failed_task-permanent :
      (clock : Clock) (task_id error_type error_message : String) (job : Job) (info : Worker)
      (w : World)
      → let worker_id = text_or_empty (get "task_worker_id" job) in
        let (answer, w') =
          handle_failed_task settings rxon config dispatch clock task_id
            (error_type, error_message)
            job
            w in
        is_permanent settings rxon config dispatch error_type ≡ true
        → worker_id ≢ ""
        → get_worker_info worker_id w.memory ≡ some info
        → (answer ≡ accepted "failure_handled")
          × ((job' : Job) × (get_job_state (id_of job) w'.memory ≡ some job')
              × (status_of (get "status" job') ≡ some quarantined))
          × (w'.memory.quarantine_queue ≡ w.memory.quarantine_queue ++ id_of job ∷ [])
          × (w'.memory.job_queue ≡ w.memory.job_queue)
          × RatedDown (penalty_of settings rxon config dispatch error_type) info worker_id w'.memory
  unfolding handle_failed_task quarantine_permanently get_job_state save_job_state quarantine_job
      get_worker_info
  handle_failed_task-permanent clock task_id error_type error_message job info w p n found =
      let worker_id = text_or_empty (get "task_worker_id" job) in
      let adjust = penalise (penalty_of settings rxon config dispatch error_type) in
      rw (p, str_ne worker_id "" n, rate_worker-found worker_id adjust info w.memory found)
        (
          refl,
          (_, get-put_self (id_of job) _ w.memory.jobs, simp (get-put)),
          refl,
          refl,
          (rated adjust info, get-put_self worker_id (rated adjust info) w.memory.workers, refl),
        )
