-- ===== src/Executor/Outcomes/Retries.antt =====
-- executor.py: how often a handler that raises is tried again, and what becomes of the job.
use avtomatika.Prelude.{
  ℕ, ◌+◌, ◌<◌, ◌≤◌, ◌≡◌, ◌≢◌, ◌⊎◌, inl, inr, refl, ◌∙◌, ap, String, false, Option, none, some, List,
  [], ◌∷◌, ◌++◌, arith, str_eq, eq_iff, ltb, ltb→lt, Bool-cases,
}
use avtomatika.Dict.{get, get-put, get-put_self, put}
use avtomatika.Value.{
  Value, num, text, state, Job, num_or, status_of, Status, quarantined, awaiting_retry, running,
}
use avtomatika.Storage.{Memory}
use avtomatika.Storage.Jobs.{get_job_state, save_job_state, enqueue_job, quarantine_job}
use avtomatika.Executor.{
  World, Config, Clock, Engine, id_of, current_state_of, text_or_empty, log_job_event, in_memory,
  snapshot,
}
use avtomatika.Executor.Outcomes.{
  handle_failure, retry_later, give_up, handle_transition, handle_terminal_reached,
  check_and_resume_parent, check_output, with_result, send_job_webhook, resumed, resume_found,
}

abbrev changed_job : String → Job → Job
changed_job next_state job =
    put "status" (state running)
      (put "current_state" (text next_state) (put "retry_count" (num 0) job))

-- What a transition leaves: the job in its next state, with no failed attempts, at the end of the
-- queue; the other jobs as they were.
pub handle_transition_lem :
    (clock : Clock) (duration_ms : ℕ) (next_state other : String) (job : Job) (w : World)
    → other ≢ id_of job
    → let (job', w') = handle_transition clock duration_ms next_state job w in
      (get_job_state (id_of job) w'.memory ≡ some job')
      × (current_state_of job' ≡ next_state)
      × (num_or 1 (get "retry_count" job') ≡ 0)
      × (status_of (get "status" job') ≡ some running)
      × (w'.memory.job_queue ≡ w.memory.job_queue ++ id_of job ∷ [])
      × (get_job_state other w'.memory ≡ get_job_state other w.memory)
unfolding handle_transition save_job_state get_job_state enqueue_job log_job_event
handle_transition_lem clock duration_ms next_state other job w d = (
  ground (arith, get-put_self (id_of job) (changed_job next_state job) w.memory.jobs),
  simp (get-put),
  simp (get-put),
  simp (get-put),
  refl,
  ground (
    arith,
    get-put (id_of job) other (changed_job next_state job) w.memory.jobs,
    eq_iff (id_of job) other,
  ),
)

parent_of : Job → String
parent_of job = text_or_empty (get "parent_job_id" job)

pub send_job_webhook_memory :
    (config : Config) (event : String) (job : Job) (w : World)
    → (send_job_webhook config event job w).memory ≡ w.memory
unfolding send_job_webhook
send_job_webhook_memory config event job w = ground arith

module _ (job_finished : String) where
  -- Only the parent's state is written, and no job is quarantined.
  abbrev Spares : String → World → World → Type 0
  Spares other w w' =
      (w'.memory.quarantine_queue ≡ w.memory.quarantine_queue)
      × (get_job_state other w'.memory ≡ get_job_state other w.memory)

  resume_found-Spares :
      (parent_job_id : String) (child : Job) (found : Option Job) (w : World) (other : String)
      → other ≢ parent_job_id
      → Spares other w (resume_found job_finished parent_job_id child found w)
  unfolding get_job_state save_job_state enqueue_job
  resume_found-Spares p child none w other d = (refl, refl)
  resume_found-Spares p child (some []) w other d = (refl, refl)
  resume_found-Spares p child (some (e ∷ parent)) w other d = (
    refl,
    ground (
      arith,
      eq_iff p other,
      get-put p other (resumed job_finished child (e ∷ parent)) w.memory.jobs,
    ),
  )

  check_and_resume_parent-Spares :
      (child : Job) (w : World) (other : String)
      → other ≢ text_or_empty (get "parent_job_id" child)
      → Spares other w (check_and_resume_parent job_finished child w)
  unfolding check_and_resume_parent
  check_and_resume_parent-Spares child w other d =
      let p = text_or_empty (get "parent_job_id" child) in
      grind (arith, resume_found-Spares p child (get_job_state p w.memory) w other d)

  -- The parent is resumed, the job is saved, and the parent is resumed again.
  resumed_twice :
      (id : String) (job : Job) (w : World) (notified : List (String × (Status × Job)))
      → id ≢ text_or_empty (get "parent_job_id" job)
      → let w₂ = check_and_resume_parent job_finished job w in
        let w₄ = record (in_memory (save_job_state id job) w₂) { notified = notified } in
        let w₅ = check_and_resume_parent job_finished job w₄ in
        (get_job_state id w₅.memory ≡ some job)
        × (w₅.memory.quarantine_queue ≡ w.memory.quarantine_queue)
  unfolding get_job_state save_job_state
  resumed_twice id job w notified d =
      let w₂ = check_and_resume_parent job_finished job w in
      let w₄ = record (in_memory (save_job_state id job) w₂) { notified = notified } in
      let (q₂, g₂) = check_and_resume_parent-Spares job w id d in
      let (q₄, g₄) = check_and_resume_parent-Spares job w₄ id d in
      (g₄ ∙ get-put_self id job w₂.memory.jobs, q₄ ∙ q₂)

  module _ {F : Type 0} (validate_data : Value → Value → Option String) (engine : Engine F)
      (clock : Clock) (duration_ms : ℕ) where
    -- The job keeps its identity and its parent, and takes the status.
    pub with_result_lem :
        (k : String) (job : Job) → str_eq "result" k ≡ false → get k (with_result job) ≡ get k job
    unfolding with_result
    with_result_lem k job d = grind (arith, get-put)

    handle_terminal_reached_lem :
        (job : Job) (w : World)
        → id_of job ≢ text_or_empty (get "parent_job_id" job)
        → let (job', w') =
            handle_terminal_reached job_finished validate_data engine clock duration_ms quarantined
              job w in
          (get_job_state (id_of job) w'.memory ≡ some job')
          × (get "status" job' ≡ some (state quarantined))
          × (get "parent_job_id" job' ≡ get "parent_job_id" job)
          × (w'.memory.quarantine_queue ≡ w.memory.quarantine_queue)
    unfolding handle_terminal_reached check_output get_job_state save_job_state log_job_event
    handle_terminal_reached_lem job w d =
        let job' = put "status" (state quarantined) (with_result job) in
        let parent : get "parent_job_id" job' ≡ get "parent_job_id" job =
          get-put "status" "parent_job_id" (state quarantined) (with_result job)
          ∙ with_result_lem "parent_job_id" job refl in
        let w₁ =
          log_job_event "job_completed" (current_state_of job)
            (("duration_ms", num duration_ms)
              ∷ ("timestamp", num clock.wall)
              ∷ snapshot (with_result job)
              ∷ [])
            (with_result job) w in
        let notified =
          (check_and_resume_parent job_finished job' w₁).notified
          ++ (id_of job, (quarantined, job')) ∷ [] in
        let other : id_of job ≢ text_or_empty (get "parent_job_id" job') =
          λ e. d (e ∙ ap text_or_empty parent) in
        let (stored, kept) = resumed_twice (id_of job) job' w₁ notified other in
        (
          rw (send_job_webhook_memory) stored,
          get-put_self "status" (state quarantined) (with_result job),
          parent,
          rw (send_job_webhook_memory) kept,
        )

    -- The job is stored with one failure more, and enqueued.
    abbrev pub Retried : Job → Memory → Job × World → Type 0
    Retried job m (job', w') =
        (get_job_state (id_of job) w'.memory ≡ some job')
        × (num_or 0 (get "retry_count" job') ≡ num_or 0 (get "retry_count" job) + 1)
        × (status_of (get "status" job') ≡ some awaiting_retry)
        × (w'.memory.job_queue ≡ m.job_queue ++ id_of job ∷ [])
        × (w'.memory.quarantine_queue ≡ m.quarantine_queue)

    -- The job is stored as quarantined, and listed last in the quarantine.
    abbrev pub GivenUp : Job → Memory → Job × World → Type 0
    GivenUp job m (job', w') =
        (get_job_state (id_of job) w'.memory ≡ some job')
        × (status_of (get "status" job') ≡ some quarantined)
        × (w'.memory.quarantine_queue ≡ m.quarantine_queue ++ id_of job ∷ [])

    retry_later-Retried :
        (error : String) (job : Job) (w : World)
        → Retried job w.memory (retry_later job_finished validate_data engine error job w)
    unfolding retry_later get_job_state save_job_state enqueue_job
    retry_later-Retried error job w =
        (get-put_self (id_of job) _ w.memory.jobs, simp (get-put), simp (get-put), refl, refl)

    give_up-GivenUp :
        (job : Job) (w : World)
        → id_of job ≢ text_or_empty (get "parent_job_id" job)
        → GivenUp job w.memory (give_up job_finished validate_data engine clock duration_ms job w)
    unfolding give_up quarantine_job get_job_state
    give_up-GivenUp job w d =
        let (job', w') =
          handle_terminal_reached job_finished validate_data engine clock duration_ms quarantined
            job w in
        let (stored, status, parent, kept) = handle_terminal_reached_lem job w d in
        let (q, g) =
          check_and_resume_parent-Spares job' (in_memory (quarantine_job (id_of job)) w')
            (id_of job) (λ e. d (e ∙ ap text_or_empty parent)) in
        (
          rw (send_job_webhook_memory) (g ∙ stored),
          ap status_of status,
          rw (send_job_webhook_memory) (q ∙ ap (λ (l : List String). l ++ id_of job ∷ []) kept),
        )

    -- What a handler's failure leaves, by the number of the failures before it. Below the limit the
    -- job is stored with one failure more and enqueued; from the limit on it is stored as
    -- quarantined and listed last in the quarantine, if it is not its own parent.
    pub handle_failure_lem :
        (error : String) (job : Job) (w : World)
        → id_of job ≢ text_or_empty (get "parent_job_id" job)
        → let retries = num_or 0 (get "retry_count" job) in
          let left =
            handle_failure job_finished validate_data engine clock duration_ms error job w in
          ((retries < engine.config.job_max_retries) × Retried job w.memory left)
          ⊎ ((engine.config.job_max_retries ≤ retries) × GivenUp job w.memory left)
    unfolding handle_failure log_job_event
    handle_failure_lem error job w d =
        elim (Bool-cases (ltb (num_or 0 (get "retry_count" job)) engine.config.job_max_retries)) [
          | inl below ↦ inl (ltb→lt _ _ below, rw below (retry_later-Retried error job _))
          | inr beyond ↦ inr (ground arith, rw beyond (give_up-GivenUp job _ d))
        ]
