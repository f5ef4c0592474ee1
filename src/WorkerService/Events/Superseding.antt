-- ===== src/WorkerService/Events/Superseding.antt =====
-- services/worker_service.py: an event that takes a job away from its task.
use Prim.Native.String.{◌++◌ as str_append}
use package.text.Mathlib.TextLemmas.{append-eq-nil_iff}
use avtomatika.Prelude.{
  ◌≡◌, ◌≢◌, refl, sym, ap, ◌∙◌, arith, String, true, false, none, some, [], ◌∷◌, ◌++◌, str_eq,
  str_ne, eq_iff,
}
use avtomatika.Dict.{get, get-put, get-put_self, get-pop_self}
use avtomatika.Value.{text, state, Job, status_of, running}
use avtomatika.Storage.{Memory}
use avtomatika.Storage.Jobs.{get_job_state, save_job_state, enqueue_job}
use avtomatika.Storage.Watch.{remove_job_from_watch}
use avtomatika.Executor.{current_state_of}
use avtomatika.WorkerService.{WorkerEvent, nonempty_text}
use avtomatika.WorkerService.Results.{is_stale}
use avtomatika.WorkerService.Events.{
  found_job, supersede_to, supersede_found, supersede_at, event_transition, superseded, supersede,
}

mark-not_empty :
    (event_id : String) → str_eq (str_append "superseded_by_event:" event_id) "" ≡ false
mark-not_empty event_id = str_ne (str_append "superseded_by_event:" event_id) "" (λ e. ground (
  arith,
  eq_iff "superseded_by_event:" "",
  (append-eq-nil_iff {p = "superseded_by_event:"} {q = event_id}).0 e,
))

superseded-is_stale :
    (event : WorkerEvent) (next_state task_id : String) (job : Job)
    → task_id ≢ str_append "superseded_by_event:" event.event_id
    → is_stale task_id (superseded event next_state job) ≡ true
unfolding is_stale superseded
superseded-is_stale event next_state task_id job d =
    let mark = str_append "superseded_by_event:" event.event_id in
    let job' = superseded event next_state job in
    let now_running : get "status" job' ≡ some (state running) = simp (get-put) in
    let marked : get "current_task_id" job' ≡ some (text mark) = simp (get-put) in
    ground (
      arith,
      now_running,
      marked,
      mark-not_empty event.event_id,
      str_ne mark task_id (λ e. d (sym e)),
    )

supersede_eq :
    (event : WorkerEvent) (job_id next_state : String) (job : Job) (m : Memory)
    → nonempty_text event.target_job_id ≡ some job_id
    → found_job (some job_id) m ≡ some job
    → event_transition event job ≡ some next_state
    → supersede event m ≡ supersede_to event job_id job (some next_state) m
unfolding supersede
supersede_eq event job_id next_state job m t f e =
    ap (λ o. supersede_at event o m) t
    ∙ (ap (λ o. supersede_found event job_id o m) f ∙ ap (λ o. supersede_to event job_id job o m) e)

-- An event whose target job waits for a worker and knows a transition for the event: the job is
-- stored, running in the state of the transition, stands last in the queue of jobs and is watched
-- no more; a result of any task that is not named after the event is stale for it.
pub supersede_lem :
    (event : WorkerEvent) (job_id next_state : String) (job : Job) (m : Memory)
    → nonempty_text event.target_job_id ≡ some job_id
    → found_job (some job_id) m ≡ some job
    → event_transition event job ≡ some next_state
    → let m' = supersede event m in
      (job' : Job) × (get_job_state job_id m' ≡ some job')
      × (current_state_of job' ≡ next_state)
      × (status_of (get "status" job') ≡ some running)
      × (m'.job_queue ≡ m.job_queue ++ job_id ∷ [])
      × (get job_id m'.watched_jobs ≡ none)
      × ((task_id : String)
          → task_id ≢ str_append "superseded_by_event:" event.event_id
          → is_stale task_id job' ≡ true)
unfolding superseded get_job_state save_job_state enqueue_job remove_job_from_watch
supersede_lem event job_id next_state job m t f e =
    rw (supersede_eq event job_id next_state job m t f e) (
      superseded event next_state job,
      get-put_self job_id _ m.jobs,
      simp (get-put),
      simp (get-put),
      refl,
      get-pop_self job_id m.watched_jobs,
      λ task_id d. superseded-is_stale event next_state task_id job d,
    )
