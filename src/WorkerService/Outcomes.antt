-- ===== src/WorkerService/Outcomes.antt =====
-- services/worker_service.py: what the result of a job's single task does to the job, by its status:
-- success, failure, cancelled, or another that the blueprint may know.
pub mod Transitions
pub mod Penalties
use Prim.Native.Nat.{min}
use Prim.Native.String.{◌++◌ as str_append}
use avtomatika.Prelude.{
  ℕ, ◌+◌, ◌-◌, String, Bool, ◌||◌, Option, none, some, [], ◌∷◌, str_eq, ltb, if◌then◌else◌,
}
use avtomatika.Dict
use avtomatika.Value.{
  Value, text, state, obj, Job, running, failed, quarantined, cancelled, from_dict, dict_of,
  text_of, update,
}
use avtomatika.Storage.{Memory, Worker, WorkerUpdate}
use avtomatika.Storage.Jobs.{save_job_state, enqueue_job, quarantine_job}
use avtomatika.Storage.Workers.{get_worker_info, update_worker_data, full_reputation, or_else}
use avtomatika.Executor.{World, Config, Clock, Step, value_or_null, text_or_empty, id_of, in_memory}
use avtomatika.Executor.Outcomes.{is_set}
use avtomatika.Orchestrator
use avtomatika.WorkerService.{Rxon, Settings, Refusal, nonempty_text}

-- Why a result is ignored. The cases are constants of rxon, but for the last.
pub data Reason : Type 0 where
  not_found mismatch stale late was_cancelled already_terminated : Reason

-- The reply to a result, or the exception: of the check of the sender, or of the engine.
pub data Answer : Type 0 where
  refused : Refusal → Answer
  raised : String → Answer
  ignored : Reason → Answer
  accepted : String → Answer

-- `d.setdefault(key, {}).update(new)`
abbrev pub merge_entry : String → Job → Job → Job
merge_entry key new job =
    Dict.put key (obj (from_dict (update (dict_of (Dict.get key job)) new))) job

-- The same where `new` is not empty.
abbrev pub merge_nonempty : String → Job → Job → Job
merge_nonempty key [] job = job
merge_nonempty key (e ∷ new) job = merge_entry key (e ∷ new) job

-- `if payload.get(key): job[key] = payload[key]`
abbrev pub copy_set : String → Job → Job → Job
copy_set key payload job =
    if is_set (Dict.get key payload)
    then Dict.put key (value_or_null (Dict.get key payload)) job
    else job

abbrev pub reputation_update : ℕ → WorkerUpdate
reputation_update reputation = record {
  status = none;
  supported_skills = none;
  hot_skills = none;
  reputation = some reputation;
  internal_load = none;
}

-- A known worker's reputation becomes `adjust` of it; a missing one reads as 1.0.
abbrev pub rate_found : String → (ℕ → ℕ) → Option Worker → Memory → Memory
rate_found worker_id adjust none m = m
rate_found worker_id adjust (some info) m =
    (update_worker_data worker_id
      (reputation_update (adjust (or_else info.reputation full_reputation))) m).1

unfoldable pub rate_worker : String → (ℕ → ℕ) → Memory → Memory
rate_worker worker_id adjust m = rate_found worker_id adjust (get_worker_info worker_id m) m

-- `max(0.0, reputation - penalty)` and `min(1.0, reputation + reward)`
abbrev pub penalise : ℕ → ℕ → ℕ
penalise penalty reputation = reputation - penalty

abbrev pub reward : ℕ → ℕ → ℕ
reward bonus reputation = min full_reputation (reputation + bonus)

-- The worker's name where one is there.
abbrev rate_if_named : String → (ℕ → ℕ) → Memory → Memory
rate_if_named worker_id adjust m = if str_eq worker_id "" then m else rate_worker worker_id adjust m

-- `transitions.get(status)`, if it is set
abbrev pub next_state_for : String → Job → Option String
next_state_for status job =
    nonempty_text (text_of (Dict.get status (dict_of (Dict.get "current_task_transitions" job))))

-- The job goes on in the state, and stands in the queue again.
abbrev pub go_on : String → Job → Job
go_on next_state job =
    Dict.put "status" (state running) (Dict.put "current_state" (text next_state) job)

abbrev resume : String → Job → Memory → Memory
resume job_id job m = enqueue_job job_id (save_job_state job_id job m)

-- A worker that has stopped the task; the job goes on where its transitions know the outcome.
unfoldable pub cancelled_by_worker : String → Job → World → Answer × World
cancelled_by_worker job_id job w =
    let stopped = Dict.put "status" (state cancelled) job in
    let w' = in_memory (save_job_state job_id stopped) w in
    (
      accepted "cancelled_handled",
      elim (next_state_for "cancelled" job) [
        | none ↦ w'
        | some next_state ↦ in_memory (resume job_id (go_on next_state stopped)) w'
      ],
    )

-- The job with what the result brings.
unfoldable pub with_payload : Job → Job → Job
with_payload payload job =
    let job₁ = merge_nonempty "state_history" (dict_of (Dict.get "data" payload)) job in
    let job₂ = merge_nonempty "data_metadata" (dict_of (Dict.get "data_metadata" payload)) job₁ in
    let job₃ = copy_set "security" payload job₂ in
    let job₄ = merge_nonempty "metadata" (dict_of (Dict.get "metadata" payload)) job₃ in
    copy_set "timestamp" payload job₄

module _ (settings : Settings) where
  -- The worker's reward, where there is one.
  unfoldable pub rewarded : String → Memory → Memory
  rewarded worker_id m =
      if ltb 0 settings.reward_success
      then rate_if_named worker_id (reward settings.reward_success) m
      else m

  unfoldable pub succeeded : String → String → String → Job → Job → World → Answer × World
  succeeded worker_id next_state job_id payload job w =
      let job' = go_on next_state (with_payload payload job) in
      (accepted "success_transition", in_memory (λ m. resume job_id job' (rewarded worker_id m)) w)

  -- A status that the task's transitions do not know fails the job.
  unfoldable pub unhandled : String → String → Job → World → Answer × World
  unhandled result_status job_id job w =
      let message : Value = text (str_append "Worker returned unhandled status: " result_status) in
      let job' = Dict.put "error_message" message (Dict.put "status" (state failed) job) in
      (accepted "unhandled_status_failure", in_memory (save_job_state job_id job') w)

  unfoldable pub transition : String → String → String → Job → Job → World → Answer × World
  transition worker_id result_status job_id payload job w =
      elim (next_state_for result_status job) [
        | none ↦ unhandled result_status job_id job w
        | some next_state ↦ succeeded worker_id next_state job_id payload job w
      ]

  module _ (rxon : Rxon) (config : Config) (dispatch : Job → Job → World → Step) where
    -- The code and the message of `error`, which is a dict, a text, or missing. A message that is no
    -- text reads as the empty text.
    abbrev pub code_and_message : Option Value → String × String
    code_and_message none = (rxon.code_transient, "No error message provided.")
    code_and_message (some (obj fs)) =
        let details = dict_of (some (obj fs)) in
        (
          text_or_empty (some (Dict.get_or "code" (text rxon.code_transient) details)),
          text_or_empty (some (Dict.get_or "message" (text "No error message provided.") details)),
        )
    code_and_message (some (text s)) = (rxon.code_transient, s)
    code_and_message (some _) = (rxon.code_transient, "No error details provided.")

    abbrev pub is_permanent : String → Bool
    is_permanent error_type =
        str_eq error_type rxon.code_permanent
        || (str_eq error_type rxon.code_security
            || (str_eq error_type rxon.code_dependency
                || str_eq error_type rxon.code_contract_violation))

    abbrev pub penalty_of : String → ℕ
    penalty_of error_type =
        if str_eq error_type rxon.code_contract_violation
        then settings.penalty_contract_violation
        else settings.penalty_task_failure

    -- The job ends in the quarantine, and its worker is rated down.
    unfoldable pub quarantine_permanently : String → String → Job → World → World
    quarantine_permanently error_type error_message job w =
        let message : Value = text (
          str_append "Task failed with permanent error ("
            (str_append error_type (str_append "): " error_message))) in
        let job' = Dict.put "error_message" message (Dict.put "status" (state quarantined) job) in
        in_memory
          (λ m. quarantine_job (id_of job) (
            save_job_state (id_of job) job' (
              rate_if_named (text_or_empty (Dict.get "task_worker_id" job))
                (penalise (penalty_of error_type)) m)))
          w

    abbrev fail_with : String → Job → World → World
    fail_with message job w =
        in_memory
          (save_job_state (id_of job)
            (Dict.put "error_message" (text message) (Dict.put "status" (state failed) job)))
          w

    -- The engine's exception, if there is one.
    abbrev answer_of : Step → Answer × World
    answer_of (none, (job, w)) = (accepted "failure_handled", w)
    answer_of (some error, (job, w)) = (raised error, w)

    -- `_handle_task_failure`: an error that will not pass ends the job, any other is the engine's.
    unfoldable pub handle_failed_task :
        Clock → String → String × String → Job → World → Answer × World
    handle_failed_task clock task_id (error_type, error_message) job w =
        if is_permanent error_type
        then (accepted "failure_handled", quarantine_permanently error_type error_message job w)
        else if str_eq error_type rxon.code_invalid_input
        then (
          accepted "failure_handled",
          fail_with (str_append "Task failed due to invalid input: " error_message) job w,
        )
        else if str_eq error_type rxon.code_integrity_mismatch
        then (
          accepted "failure_handled",
          fail_with (str_append "Task failed due to data integrity mismatch: " error_message) job w,
        )
        else answer_of
            (Orchestrator.handle_task_failure config dispatch clock task_id error_message job w)

    -- The end of a single task, by the status of its result.
    unfoldable pub finish_task :
        Clock → String → String → String → Job → Job → World → Answer × World
    finish_task clock worker_id result_status task_id payload job w =
        let job_id = text_or_empty (Dict.get "job_id" payload) in
        if str_eq result_status rxon.task_failure
        then handle_failed_task clock task_id (code_and_message (Dict.get "error" payload)) job w
        else if str_eq result_status rxon.task_cancelled
        then cancelled_by_worker job_id job w
        else transition worker_id result_status job_id payload job w
