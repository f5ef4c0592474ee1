-- ===== src/Executor/Process.antt =====
-- executor.py: `_process_job`, one job from the queue to the outcome of its state.
pub mod Limits
use Prim.Native.String.{◌++◌ as str_append}
use avtomatika.Prelude.{
  ℕ, ◌+◌, String, Bool, true, false, not, ◌||◌, ◌&&◌, Option, none, some, List, [], ◌∷◌, ◌++◌,
  filter, has, str_eq, ltb, if◌then◌else◌,
}
use avtomatika.Dict
use avtomatika.Dict.{get_or, has_key, get}
use avtomatika.Value.{
  Value, null, num, text, state, obj, Job, Status, finished, failed, error, quarantined, from_dict,
  dict_of, num_or, status_of, text_of, truthy, update,
}
use avtomatika.Storage.Jobs.{get_job_state, save_job_state, ack_job}
use avtomatika.Actions.{ActionFactory, PendingEvent, new_factory, is_text_set, is_dict_set}
use avtomatika.Blueprint.{Blueprint}
use avtomatika.Blueprint.Find.{find_handler}
use avtomatika.Executor.{
  World, Config, Clock, Engine, Context, Ran, Step, value_or_null, text_or_empty, id_of,
  current_state_of, log_job_event, snapshot, in_memory,
}
use avtomatika.Executor.Outcomes.{
  is_set, handle_failure, handle_terminal_reached, handle_transition,
}
use avtomatika.Executor.Creation.{number_of}
use avtomatika.Executor.Dispatching.{
  handle_dispatch, handle_parallel_dispatch, handle_run_blueprint,
}

-- `job_state.get("status") in TERMINAL_STATES`
unfoldable pub is_terminal : Option Status → Bool
is_terminal (some finished) = true
is_terminal (some failed) = true
is_terminal (some error) = true
is_terminal (some quarantined) = true
is_terminal _ = false

abbrev pub max_transitions_of : Config → ℕ
max_transitions_of config = elim config.max_transitions [ none ↦ 100 | some n ↦ n ]

-- `if "retry_count" not in job_state: job_state["retry_count"] = 0`
abbrev pub with_retry_count : Job → Job
with_retry_count job = if has_key "retry_count" job then job else Dict.put "retry_count" (num 0) job

-- An object that `job_state.get(key) or {}` shares with the job: what the handler left in it, unless
-- it was made anew.
abbrev shared : String → Job → Job → Job
shared key left job =
    if is_set (Dict.get key job) then Dict.put key (obj (from_dict left)) job else job

-- The handler of a state: that of the aggregator where the state is the target of branches.
unfoldable handler_of : {F : Type 0} → Blueprint F Context → Job → Context → Option F
handler_of blueprint job context =
    let found = find_handler blueprint context.current_state context in
    elim (Dict.get context.current_state blueprint.aggregator_handlers) [
      | none ↦ found
      | some aggregator ↦
          if str_eq (text_or_empty (Dict.get "aggregation_target" job)) context.current_state
            && has_key "aggregation_target" job
          then some aggregator
          else found
    ]

unfoldable context_of : Job → Context
context_of job = record {
  job_id = id_of job;
  current_state = current_state_of job;
  initial_data = dict_of (Dict.get "initial_data" job);
  state_history = dict_of (Dict.get "state_history" job);
  client = dict_of (Dict.get "client_config" job);
  aggregation_results = dict_of (Dict.get "aggregation_results" job);
  webhook_url = Dict.get "webhook_url" job;
}

-- The updates of the context, into the initial data too.
abbrev with_updates : Job → Job → Job
with_updates [] job = job
with_updates (e ∷ updates) job =
    Dict.put "initial_data"
      (obj (from_dict (update (dict_of (Dict.get "initial_data" job)) (e ∷ updates)))) job

-- The job's state after its handler has returned.
unfoldable synced : Ran → Job → Job
synced ran job =
    let updates = ran.actions.context_updates in
    let job₁ = with_updates updates job in
    Dict.put "aggregation_results" (obj (from_dict ran.aggregation_results))
      (Dict.put "state_history" (obj (from_dict (update ran.state_history updates))) job₁)

-- An event takes the job's security and metadata where it has none of its own.
abbrev inherit : Job → PendingEvent → PendingEvent
inherit job event = record event {
  security =
      if truthy event.security then event.security else value_or_null (Dict.get "security" job);
  metadata =
      if truthy event.metadata then event.metadata else value_or_null (Dict.get "metadata" job);
}

unfoldable emit : String → Job → List PendingEvent → World → World
emit job_id job [] w = w
emit job_id job (event ∷ events) w =
    emit job_id job events (record w { emitted = w.emitted ++ (job_id, inherit job event) ∷ [] })

-- The dict that is there, and not empty.
abbrev action_of : Option Job → Option Job
action_of action = if is_dict_set action then action else none

-- A job that has passed the limit of transitions; the code's message also has the limit.
unfoldable pub stop_looping : Clock → ℕ → String → Job → World → World
stop_looping clock duration_ms job_id job w =
    let message : Value =
      text "Blueprint execution exceeded maximum transitions. Suspected infinite loop detected." in
    let job' = Dict.put "error_message" message (Dict.put "status" (state failed) job) in
    log_job_event "job_failed" (current_state_of job)
      (("duration_ms", num duration_ms) ∷ ("timestamp", num clock.wall) ∷ snapshot job' ∷ []) job'
      (in_memory (save_job_state job_id job') w)

abbrev pub transition_count_of : Job → ℕ
transition_count_of job = num_or 0 (Dict.get "transition_count" job)

-- `self._processing_messages.add(message_id)`, and the `finally` clause
abbrev pub begin : String → World → World
begin message_id w = record w { processing = message_id ∷ w.processing }

unfoldable pub finish : String → World → World
finish message_id w = record (in_memory (ack_job message_id) w) {
  processing = filter (λ i. not (str_eq i message_id)) w.processing;
}

module _ {F : Type 0} (uuid : ℕ → String) (injected : Job) (engine : Engine F)
    (dispatch : Job → Job → World → Step) (job_finished : String)
    (validate_data : Value → Value → Option String) (run : F → Context → ActionFactory → Ran) where
  abbrev settled : Job × World → Step
  settled (job, w) = (none, (job, w))

  -- The first decision that the handler took, else the end of the job in an end state.
  unfoldable decide : Clock → ℕ → Blueprint F Context → ActionFactory → Job → World → Step
  decide clock duration_ms blueprint actions job w =
      let status : Status = if str_eq (current_state_of job) "finished" then finished else failed in
      let ended : Step =
        if has (current_state_of job) blueprint.end_states
        then settled (
            handle_terminal_reached job_finished validate_data engine clock duration_ms status job
              w)
        else (none, (job, w)) in
      let sub : Step = elim (action_of actions.sub_blueprint_to_run) [
        | none ↦ ended
        | some info ↦ settled (
            handle_run_blueprint uuid injected engine job_finished validate_data clock duration_ms
              info job w)
      ] in
      let parallel : Step = elim (action_of actions.parallel_tasks_to_dispatch) [
        | none ↦ sub
        | some info ↦ handle_parallel_dispatch uuid injected engine dispatch clock info job w
      ] in
      let task : Step = elim (action_of actions.task_to_dispatch) [
        | none ↦ parallel
        | some info ↦ handle_dispatch uuid injected engine dispatch clock duration_ms info job w
      ] in
      elim actions.next_state [
        | none ↦ task
        | some next_state ↦
            if str_eq next_state ""
            then task
            else settled (handle_transition clock duration_ms next_state job w)
      ]

  -- The `try` of the handler's call: what it leaves, or the exception.
  unfoldable execute : Clock → ℕ → Blueprint F Context → Job → World → Step
  unfolding handler_of context_of synced emit decide
  execute clock duration_ms blueprint job w =
      let context = context_of job in
      let actions =
        new_factory (id_of job) (number_of (Dict.get "dispatch_timeout" job))
          (number_of (Dict.get "result_timeout" job)) in
      elim (handler_of blueprint job context) [
        | none ↦ (
          some (str_append "No suitable handler found for state " context.current_state),
          (job, w),
        )
        | some handler ↦
            let ran = run handler context actions in
            let touched = shared "initial_data" ran.initial_data (
              shared "state_history" ran.state_history
                (shared "aggregation_results" ran.aggregation_results job)) in
            let job' = synced ran touched in
            elim ran.raised [
              | some message ↦ (some message, (touched, w))
              | none ↦
                  decide clock duration_ms blueprint ran.actions job'
                    (emit (id_of job) job' ran.actions.pending_events w)
            ]
      ]

  -- `except Exception as e`
  abbrev caught : Clock → ℕ → Step → World
  caught clock duration_ms (none, (job, w)) = w
  caught clock duration_ms (some message, (job, w)) =
      (handle_failure job_finished validate_data engine clock duration_ms message job w).1

  -- A job within the limit.
  unfoldable pub run_state : Clock → ℕ → Job → World → World
  unfolding execute
  run_state clock duration_ms job w =
      let w₁ =
        log_job_event "state_started" (current_state_of job)
          (("origin_task_id", value_or_null (Dict.get "current_task_id" job))
            ∷ ("attempt_number", num (num_or 0 (Dict.get "retry_count" job) + 1))
            ∷ ("timestamp", num clock.wall)
            ∷ snapshot job
            ∷ [])
          job w in
      let traced = Dict.put "tracing_context" (obj (from_dict injected)) job in
      let blueprint_name = text_or_empty (Dict.get "blueprint_name" job) in
      elim (Dict.get blueprint_name engine.blueprints) [
        | none ↦ caught clock duration_ms (
          some (str_append "Blueprint '" (str_append blueprint_name "' not found")),
          (traced, w₁),
        )
        | some blueprint ↦ caught clock duration_ms (execute clock duration_ms blueprint traced w₁)
      ]

  -- The job that the store holds under the id, if there is one.
  unfoldable pub process_found : Clock → ℕ → String → Option Job → World → World
  process_found clock duration_ms job_id none w = w
  process_found clock duration_ms job_id (some []) w = w
  process_found clock duration_ms job_id (some (e ∷ rest)) w =
      let job = with_retry_count (e ∷ rest) in
      let transition_count = transition_count_of job + 1 in
      if is_terminal
        (elim (Dict.get "status" (e ∷ rest)) [ none ↦ none | some v ↦ status_of (some v) ])
      then w
      else if ltb (max_transitions_of engine.config) transition_count
      then stop_looping clock duration_ms job_id job w
      else run_state clock duration_ms (Dict.put "transition_count" (num transition_count) job) w

  -- A message that is being processed is dropped; the others are acknowledged at the end.
  unfoldable pub process_job : Clock → ℕ → String → String → World → World
  process_job clock duration_ms job_id message_id w =
      let w' =
        process_found clock duration_ms job_id (get_job_state job_id w.memory)
          (begin message_id w) in
      if has message_id w.processing then w else finish message_id w'
