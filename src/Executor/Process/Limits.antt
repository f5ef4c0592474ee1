-- ===== src/Executor/Process/Limits.antt =====
-- executor.py: which jobs `_process_job` leaves alone, and which it stops.
use avtomatika.Prelude.{
  ℕ, ◌+◌, ◌≤◌, ◌≡◌, ◌≢◌, ◌⊎◌, inl, inr, refl, sym, String, true, false, not, Option, none, some,
  List, [], ◌∷◌, arith, str_eq, str_ne, eq_iff, eq_refl, has, filter, ltb, lt→ltb, Bool-cases,
}
use avtomatika.Dict.{get, get-put, get-put_self}
use avtomatika.Value.{Value, Job, status_of, failed, num_or}
use avtomatika.Storage.Jobs.{get_job_state, save_job_state, dequeue_job, ack_job}
use avtomatika.Actions.{ActionFactory}
use avtomatika.Executor.{World, Clock, Engine, Context, Ran, Step, log_job_event, in_memory}
use avtomatika.Executor.Process.{
  process_job, process_found, is_terminal, max_transitions_of, transition_count_of, stop_looping,
  with_retry_count, begin, finish,
}

-- A message that was not there is taken off again.
filter-without :
    (message_id : String) (ids : List String)
    → has message_id ids ≡ false
    → filter (λ i. not (str_eq i message_id)) ids ≡ ids
filter-without message_id [] h = refl
filter-without message_id (i ∷ ids) h =
    ground (arith, filter-without message_id ids, eq_iff i message_id, eq_iff message_id i)

finish-begin :
    (message_id : String) (w : World)
    → has message_id w.processing ≡ false
    → finish message_id (begin message_id w) ≡ w
unfolding finish ack_job
finish-begin message_id w h = simp (eq_refl, filter-without message_id w.processing h)

module _ {F : Type 0} (uuid : ℕ → String) (injected : Job) (engine : Engine F)
    (dispatch : Job → Job → World → Step) (job_finished : String)
    (validate_data : Value → Value → Option String) (run : F → Context → ActionFactory → Ran)
    (clock : Clock) (duration_ms : ℕ) where
  -- The job is not in the store, or has ended.
  abbrev HasEnded : Option Job → Type 0
  HasEnded found =
      (found ≡ none)
      ⊎ ((job : Job) × (found ≡ some job) × (is_terminal (status_of (get "status" job)) ≡ true))

  process_found-ended :
      (job_id : String) (found : Option Job) (w : World)
      → HasEnded found
      → process_found uuid injected engine dispatch job_finished validate_data run clock duration_ms
          job_id found w
        ≡ w
  unfolding process_found
  process_found-ended job_id none w h = refl
  process_found-ended job_id (some []) w h = refl
  process_found-ended job_id (some (e ∷ rest)) w h = grind (arith)

  -- A job that has ended, is unknown, or whose message is being processed is left alone: the store,
  -- the history and all else are as before.
  pub process_job_skips :
      (job_id message_id : String) (w : World)
      → (has message_id w.processing ≡ true) ⊎ HasEnded (get_job_state job_id w.memory)
      → process_job uuid injected engine dispatch job_finished validate_data run clock duration_ms
          job_id message_id w
        ≡ w
  unfolding process_job
  process_job_skips job_id message_id w h = elim (Bool-cases (has message_id w.processing)) [
    | inl busy ↦ rw busy refl
    | inr fresh ↦ elim h [
      | inl busy ↦ grind (arith)
      | inr ended ↦
          rw
            (
              fresh,
              process_found-ended job_id (get_job_state job_id w.memory) (begin message_id w) ended,
            )
            (finish-begin message_id w fresh)
    ]
  ]

  process_found-limit :
      (job_id : String) (job : Job) (w : World)
      → job ≢ []
      → is_terminal (status_of (get "status" job)) ≡ false
      → max_transitions_of engine.config ≤ num_or 0 (get "transition_count" job)
      → process_found uuid injected engine dispatch job_finished validate_data run clock duration_ms
          job_id
          (some job)
          w
        ≡ stop_looping clock duration_ms job_id (with_retry_count job) w
  unfolding process_found
  process_found-limit job_id [] w full going over = grind (arith)
  process_found-limit job_id (e ∷ rest) w full going over =
      let count : transition_count_of (with_retry_count (e ∷ rest))
          ≡ transition_count_of (e ∷ rest) =
        grind (arith, get-put) in
      let beyond : ltb (max_transitions_of engine.config)
            (transition_count_of (with_retry_count (e ∷ rest)) + 1)
          ≡ true =
        lt→ltb _ _ (grind (arith)) in
      rw (going, beyond) refl

  -- A job of the store that has not ended, has made as many transitions as are allowed, and whose
  -- message is not being processed, is stopped: it is stored as failed, nothing is enqueued, and
  -- the other jobs are as they were.
  pub process_job-limit :
      (job_id message_id other : String) (job : Job) (w : World)
      → has message_id w.processing ≡ false
      → get_job_state job_id w.memory ≡ some job
      → job ≢ []
      → is_terminal (status_of (get "status" job)) ≡ false
      → max_transitions_of engine.config ≤ num_or 0 (get "transition_count" job)
      → other ≢ job_id
      → let w' =
          process_job uuid injected engine dispatch job_finished validate_data run clock duration_ms
            job_id message_id w in
        ((job' : Job) × (get_job_state job_id w'.memory ≡ some job')
          × (status_of (get "status" job') ≡ some failed))
        × (w'.memory.job_queue ≡ w.memory.job_queue)
        × (get_job_state other w'.memory ≡ get_job_state other w.memory)
        × (w'.processing ≡ w.processing)
  unfolding process_job finish ack_job stop_looping log_job_event get_job_state save_job_state
  process_job-limit job_id message_id other job w fresh stored full going over d =
      let begun = begin message_id w in
      let looping = process_found-limit job_id job begun full going over in
      rw (fresh, stored, looping)
        (
          (_, get-put_self job_id _ w.memory.jobs, simp (get-put)),
          refl,
          grind (arith, get-put, str_ne job_id other (λ e. d (sym e))),
          simp (eq_refl, filter-without message_id w.processing fresh),
        )

  -- With the in-memory store, whose messages all have one name, a job that is dequeued while another
  -- is processed is lost: it is off the queue, and all else is as it was.
  pub process_job-dequeue :
      (job_id : String) (rest : List String) (w : World)
      → w.memory.job_queue ≡ job_id ∷ rest
      → has "memory-msg-id" w.processing ≡ true
      → (message_id : String) × (dequeue_job w.memory
          ≡ (some (job_id, message_id), record w.memory { job_queue = rest }))
        × (let w₁ = in_memory (λ m. record m { job_queue = rest }) w in
            process_job uuid injected engine dispatch job_finished validate_data run clock
              duration_ms job_id message_id w₁
            ≡ w₁)
  unfolding dequeue_job
  process_job-dequeue job_id rest w queued busy = (
    "memory-msg-id",
    rw (queued) refl,
    process_job_skips job_id "memory-msg-id" (in_memory (λ m. record m { job_queue = rest }) w)
        (inl busy),
  )
