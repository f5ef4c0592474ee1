-- ===== src/Executor/Outcomes/Parents.antt =====
-- executor.py: the parent job that waits for the end of its child.
use avtomatika.Prelude.{
  ℕ, ◌≡◌, ◌≢◌, refl, ◌∙◌, ap, String, false, Option, some, List, [], ◌∷◌, ◌++◌, arith, str_eq,
  str_ne, eq_iff,
}
use mathlib.Core.List.{append_assoc}
use avtomatika.Dict.{Dict, get, get_or, get-put, get-put_self, put}
use avtomatika.Value.{Value, num, text, state, Job, dict_of, Status, finished, running}
use avtomatika.Storage.Jobs.{get_job_state, save_job_state, enqueue_job}
use avtomatika.Executor.{
  World, Clock, Engine, id_of, current_state_of, text_or_empty, log_job_event, in_memory, snapshot,
}
use avtomatika.Executor.Outcomes.{
  handle_terminal_reached, check_and_resume_parent, check_output, with_result, resumed,
  resume_found, child_outcome,
}
use avtomatika.Executor.Outcomes.Retries.{send_job_webhook_memory, with_result_lem}

put-not_empty : {V : Type 0} (k : String) (v : V) (d : Dict V) → put k v d ≢ []
unfolding get
put-not_empty k v d h = ground (arith, get-put_self k v d, h)

module _ (job_finished : String) where
  -- The state that the parent's transitions give for the outcome of the child.
  abbrev pub next_of_parent : Job → Job → Value
  next_of_parent child parent =
      get_or (child_outcome job_finished child) (text "failed")
        (dict_of (get "current_task_transitions" parent))

  resumed_lem :
      (child parent : Job)
      → (resumed job_finished child parent ≢ [])
        × (get "current_state" (resumed job_finished child parent)
            ≡ some (next_of_parent child parent))
        × (get "status" (resumed job_finished child parent) ≡ some (state running))
        × (get "current_task_transitions" (resumed job_finished child parent)
            ≡ get "current_task_transitions" parent)
  unfolding resumed
  resumed_lem child parent = (put-not_empty _ _ _, simp (get-put), simp (get-put), simp (get-put))

  resume_found_lem :
      (p : String) (child parent : Job) (w : World)
      → parent ≢ []
      → resume_found job_finished p child (some parent) w
        ≡ in_memory (λ m. enqueue_job p (save_job_state p (resumed job_finished child parent) m)) w
  resume_found_lem p child [] w d = grind (arith)
  resume_found_lem p child (e ∷ parent) w d = refl

  -- One resumption of a parent that the store holds.
  check_and_resume_parent_lem :
      (p : String) (child parent : Job) (w : World)
      → text_or_empty (get "parent_job_id" child) ≡ p
      → p ≢ ""
      → get_job_state p w.memory ≡ some parent
      → parent ≢ []
      → check_and_resume_parent job_finished child w
        ≡ in_memory (λ m. enqueue_job p (save_job_state p (resumed job_finished child parent) m)) w
  unfolding check_and_resume_parent
  check_and_resume_parent_lem p child parent w same n stored d =
      rw (same, str_ne p "" n, stored) (resume_found_lem p child parent w d)

  -- The parent runs in this state, and is last in the queue, twice.
  abbrev Twice : String → Value → World → World → Type 0
  Twice p next w w' =
      (w'.memory.job_queue ≡ w.memory.job_queue ++ p ∷ (p ∷ []))
      × ((parent' : Job) × (get_job_state p w'.memory ≡ some parent')
          × (get "current_state" parent' ≡ some next)
          × (get "status" parent' ≡ some (state running)))

  resumed-Twice :
      (p id : String) (child child' parent : Job) (w : World)
      (notified : List (String × (Status × Job)))
      → text_or_empty (get "parent_job_id" child) ≡ p
      → text_or_empty (get "parent_job_id" child') ≡ p
      → current_state_of child' ≡ current_state_of child
      → p ≢ ""
      → p ≢ id
      → get_job_state p w.memory ≡ some parent
      → parent ≢ []
      → let w₂ = check_and_resume_parent job_finished child w in
        let w₄ = record (in_memory (save_job_state id child') w₂) { notified = notified } in
        Twice p (next_of_parent child parent) w (check_and_resume_parent job_finished child' w₄)
  unfolding get_job_state save_job_state enqueue_job
  resumed-Twice p id child child' parent w notified e e' c n o stored d =
      let once = resumed job_finished child parent in
      let (full, state₁, status₁, kept₁) = resumed_lem child parent in
      let (full₂, state₂, status₂, kept₂) = resumed_lem child' once in
      let w₂ =
        in_memory (λ m. enqueue_job p (save_job_state p (resumed job_finished child parent) m)) w in
      let w₄ = record (in_memory (save_job_state id child') w₂) { notified = notified } in
      let held : get_job_state p w₄.memory ≡ some once = ground (
        arith,
        get-put id p child' (put p once w.memory.jobs),
        get-put_self p once w.memory.jobs,
        eq_iff id p,
      ) in
      rw
        (
          check_and_resume_parent_lem p child parent w e n stored d,
          check_and_resume_parent_lem p child' once w₄ e' n held full,
        )
        (
          simp (append_assoc),
          (
            resumed job_finished child' once,
            get-put_self p _ w₄.memory.jobs,
            state₂ ∙ grind (arith),
            status₂,
          ),
        )

  module _ {F : Type 0} (validate_data : Value → Value → Option String) (engine : Engine F)
      (clock : Clock) (duration_ms : ℕ) where
    check_output_lem :
        (k : String) (status : Status) (job : Job)
        → str_eq "error_message" k ≡ false
        → str_eq "status" k ≡ false
        → get k (check_output job_finished validate_data engine status job).1 ≡ get k job
    unfolding check_output
    check_output_lem k finished job e s = grind (arith, get-put)
    check_output_lem k status job e s = refl

    ended_lem :
        (k : String) (status : Status) (job : Job)
        → str_eq "result" k ≡ false
        → str_eq "status" k ≡ false
        → get k (put "status" (state status) (with_result job)) ≡ get k job
    ended_lem k status job r s =
        rw (get-put "status" k (state status) (with_result job), s)
          (with_result_lem job_finished validate_data engine clock duration_ms k job r)

    -- The end of a job that has a parent in the store, other than itself: the parent is running,
    -- in the state that its transitions give for the outcome of the child, and it stands in the
    -- queue of jobs twice.
    pub handle_terminal_reached-parent :
        (status : Status) (job parent : Job) (w : World)
        → let p = text_or_empty (get "parent_job_id" job) in
          p ≢ ""
          → p ≢ id_of job
          → get_job_state p w.memory ≡ some parent
          → parent ≢ []
          → let (job', w') =
              handle_terminal_reached job_finished validate_data engine clock duration_ms status job
                w in
            (w'.memory.job_queue ≡ w.memory.job_queue ++ p ∷ (p ∷ []))
            × ((parent' : Job) × (get_job_state p w'.memory ≡ some parent')
                × (get "current_state" parent' ≡ some (next_of_parent job parent))
                × (get "status" parent' ≡ some (state running)))
    unfolding handle_terminal_reached log_job_event get_job_state
    handle_terminal_reached-parent status job parent w n o stored d =
        let p = text_or_empty (get "parent_job_id" job) in
        let job₂ = put "status" (state status) (with_result job) in
        let (status', job₃) = check_output job_finished validate_data engine status job₂ in
        let w₁ =
          log_job_event "job_completed" (current_state_of job)
            (("duration_ms", num duration_ms)
              ∷ ("timestamp", num clock.wall)
              ∷ snapshot (with_result job)
              ∷ [])
            (with_result job) w in
        let notified =
          (check_and_resume_parent job_finished job₂ w₁).notified
          ++ (id_of job, (status', job₃)) ∷ [] in
        let parent₂ : text_or_empty (get "parent_job_id" job₂) ≡ p =
          ap text_or_empty (ended_lem "parent_job_id" status job refl refl) in
        let parent₃ : text_or_empty (get "parent_job_id" job₃) ≡ p =
          ap text_or_empty (check_output_lem "parent_job_id" status job₂ refl refl) ∙ parent₂ in
        let state₂ : current_state_of job₂ ≡ current_state_of job =
          ap text_or_empty (ended_lem "current_state" status job refl refl) in
        let state₃ : current_state_of job₃ ≡ current_state_of job₂ =
          ap text_or_empty (check_output_lem "current_state" status job₂ refl refl) in
        let next : next_of_parent job₂ parent ≡ next_of_parent job parent = grind (arith) in
        let (queue, (parent', held, current, running_now)) =
          resumed-Twice p (id_of job) job₂ job₃ parent w₁ notified parent₂ parent₃ state₃ n o stored
            d in
        (
          rw (send_job_webhook_memory) queue,
          (parent', rw (send_job_webhook_memory) held, current ∙ ap some next, running_now),
        )
