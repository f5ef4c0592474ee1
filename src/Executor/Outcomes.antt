-- ===== src/Executor/Outcomes.antt =====
-- executor.py and engine.py: the outcomes of a state that end it: transition, failure, end of the
-- job, and the parent that waits for it.
pub mod Retries
pub mod Parents
use Prim.Native.String.{◌++◌ as str_append}
use avtomatika.Prelude.{
  ℕ, ◌+◌, String, Bool, true, false, not, ◌||◌, ◌&&◌, Option, none, some, List, [], ◌∷◌, ◌++◌, map,
  str_eq, ltb, if◌then◌else◌,
}
use avtomatika.Dict
use avtomatika.Dict.{get_or, has_key}
use avtomatika.Value.{
  Value, null, num, text, state, obj, Job, Status, finished, failed, quarantined, running,
  awaiting_retry, from_dict, dict_of, num_or, truthy,
}
use avtomatika.Storage.Jobs.{get_job_state, save_job_state, enqueue_job, quarantine_job}
use avtomatika.Executor.{
  World, Config, Clock, Engine, value_or_null, text_or_empty, id_of, current_state_of,
  log_job_event, snapshot, in_memory,
}

-- `f"sub_job_{child_job_id}_result"`
abbrev result_key : String → String
result_key child_job_id = str_append "sub_job_" (str_append child_job_id "_result")

-- The value of the last entry.
abbrev last_value : Job → Option Value
last_value [] = none
last_value ((k, v) ∷ []) = some v
last_value (_ ∷ (e ∷ rest)) = last_value (e ∷ rest)

-- `if v:` of an entry that may be missing
abbrev pub is_set : Option Value → Bool
is_set none = false
is_set (some v) = truthy v

-- The job's result, taken from the history of its states: from the current state if that is there,
-- else from the latest one where no result is set.
unfoldable pub with_result : Job → Job
with_result job =
    let state_history = dict_of (Dict.get "state_history" job) in
    elim (Dict.get (current_state_of job) state_history) [
      | some v ↦ Dict.put "result" v job
      | none ↦
          if is_set (Dict.get "result" job)
          then job
          else elim (last_value state_history) [ none ↦ job | some v ↦ Dict.put "result" v job ]
    ]

-- `send_job_webhook` of engine.py; a job without the address of a webhook sends none.
unfoldable pub send_job_webhook : Config → String → Job → World → World
send_job_webhook config event job w =
    let result = Dict.get "result" job in
    let shown =
      if not (is_set result) && config.detailed_api_responses
      then Dict.get "state_history" job
      else result in
    let payload =
      ("event", text event)
      ∷ ("job_id", text (id_of job))
      ∷ ("status", value_or_null (Dict.get "status" job))
      ∷ ("result", value_or_null shown)
      ∷ ("error", value_or_null (Dict.get "error_message" job))
      ∷ (
        "security",
        if config.detailed_api_responses then value_or_null (Dict.get "security" job) else null,
      )
      ∷ ("metadata", value_or_null (Dict.get "metadata" job))
      ∷ ("timestamp", value_or_null (Dict.get "timestamp" job))
      ∷ [] in
    if is_set (Dict.get "webhook_url" job)
    then record w {
      webhooks = w.webhooks ++ (text_or_empty (Dict.get "webhook_url" job), payload) ∷ [];
    }
    else w

-- `job_finished` is the text of rxon's `JOB_STATUS_FINISHED`.
module _ (job_finished : String) where
  abbrev pub child_outcome : Job → String
  child_outcome child =
      if str_eq (current_state_of child) job_finished then "success" else "failure"

  -- The parent's state once its child has ended.
  unfoldable pub resumed : Job → Job → Job
  resumed child parent =
      let outcome = child_outcome child in
      let transitions = dict_of (Dict.get "current_task_transitions" parent) in
      let entry : Value = obj (
        from_dict (
          ("outcome", text outcome)
          ∷ ("final_state", value_or_null (Dict.get "current_state" child))
          ∷ ("error_message", value_or_null (Dict.get "error_message" child))
          ∷ [])) in
      let state_history =
        Dict.put (result_key (id_of child)) entry (dict_of (Dict.get "state_history" parent)) in
      Dict.put "status" (state running) (
        Dict.put "current_state" (get_or outcome (text "failed") transitions)
          (Dict.put "state_history" (obj (from_dict state_history)) parent))

  abbrev pub resume_found : String → Job → Option Job → World → World
  resume_found parent_job_id child none w = w
  resume_found parent_job_id child (some []) w = w
  resume_found parent_job_id child (some (e ∷ parent)) w =
      in_memory
        (λ m.
          enqueue_job parent_job_id (save_job_state parent_job_id (resumed child (e ∷ parent)) m))
        w

  unfoldable pub check_and_resume_parent : Job → World → World
  unfolding resumed
  check_and_resume_parent child w =
      let parent_job_id = text_or_empty (Dict.get "parent_job_id" child) in
      if str_eq parent_job_id ""
      then w
      else resume_found parent_job_id child (get_job_state parent_job_id w.memory) w

  -- `validate data schema` is rxon's check of data against a schema, with the message of a failure.
  module _ {F : Type 0} (validate_data : Value → Value → Option String) (engine : Engine F) where
    -- The status of a finished job whose history violates the output schema becomes "failed".
    unfoldable pub check_output : Status → Job → Status × Job
    check_output finished job =
        let contract =
          get_or (text_or_empty (Dict.get "blueprint_name" job)) [] engine.blueprint_contracts in
        let output_schema = Dict.get "output_schema" contract in
        if is_set output_schema
        then elim (validate_data (value_or_null (Dict.get "state_history" job))
            (value_or_null output_schema)) [
              | none ↦ (finished, job)
              | some error_msg ↦ (
                failed,
                Dict.put "error_message"
                    (text (
                      str_append
                        "Blueprint contract violation: final state_history does not match output_schema. "
                        error_msg))
                    (Dict.put "status" (state failed) job),
              )
            ]
        else (finished, job)
    check_output status job = (status, job)

    unfoldable pub handle_terminal_reached : Clock → ℕ → Status → Job → World → Job × World
    handle_terminal_reached clock duration_ms status job w =
        let job₁ = with_result job in
        let w₁ =
          log_job_event "job_completed" (current_state_of job)
            (("duration_ms", num duration_ms) ∷ ("timestamp", num clock.wall) ∷ snapshot job₁ ∷ [])
            job₁ w in
        let job₂ = Dict.put "status" (state status) job₁ in
        let w₂ = check_and_resume_parent job₂ w₁ in
        let (status', job₃) = check_output status job₂ in
        let w₃ = in_memory (save_job_state (id_of job) job₃) w₂ in
        let w₄ = record w₃ { notified = w₃.notified ++ (id_of job, (status', job₃)) ∷ [] } in
        let w₅ = check_and_resume_parent job₃ w₄ in
        (
          job₃,
          send_job_webhook engine.config
              (elim status' [ finished ↦ "job_finished" | _ ↦ "job_failed" ]) job₃ w₅,
        )

    -- A failure below the limit: the job waits in the queue for another attempt.
    unfoldable pub retry_later : String → Job → World → Job × World
    retry_later error job w =
        let retried = Dict.put "error_message" (text error) (
          Dict.put "status" (state awaiting_retry)
            (Dict.put "retry_count" (num (num_or 0 (Dict.get "retry_count" job) + 1)) job)) in
        (retried, in_memory (λ m. enqueue_job (id_of job) (save_job_state (id_of job) retried m)) w)

    -- A failure at the limit: the job ends in the quarantine.
    unfoldable pub give_up : Clock → ℕ → Job → World → Job × World
    give_up clock duration_ms job w =
        let (ended, w') = handle_terminal_reached clock duration_ms quarantined job w in
        (
          ended,
          send_job_webhook engine.config "job_quarantined" ended
              (check_and_resume_parent ended (in_memory (quarantine_job (id_of job)) w')),
        )

    -- A handler that raised: the job is tried again, or it is quarantined.
    unfoldable pub handle_failure : Clock → ℕ → String → Job → World → Job × World
    handle_failure clock duration_ms error job w =
        let current_retries = num_or 0 (Dict.get "retry_count" job) in
        let w₁ =
          log_job_event "state_failed" (current_state_of job)
            (("duration_ms", num duration_ms)
              ∷ ("attempt_number", num (current_retries + 1))
              ∷ ("timestamp", num clock.wall)
              ∷ snapshot (Dict.put "error_message" (text error) job)
              ∷ [])
            job w in
        if ltb current_retries engine.config.job_max_retries
        then retry_later error job w₁
        else give_up clock duration_ms job w₁

unfoldable pub handle_transition : Clock → ℕ → String → Job → World → Job × World
handle_transition clock duration_ms next_state job w =
    let previous_state = current_state_of job in
    let w₁ =
      log_job_event "state_finished" previous_state
        (("origin_task_id", value_or_null (Dict.get "current_task_id" job))
          ∷ ("duration_ms", num duration_ms)
          ∷ ("previous_state", text previous_state)
          ∷ ("next_state", text next_state)
          ∷ ("timestamp", num clock.wall)
          ∷ snapshot job
          ∷ [])
        job w in
    let job' =
      Dict.put "status" (state running)
        (Dict.put "current_state" (text next_state) (Dict.put "retry_count" (num 0) job)) in
    (job', in_memory (λ m. enqueue_job (id_of job) (save_job_state (id_of job) job' m)) w₁)
