-- ===== src/Executor/Dispatching.antt =====
-- executor.py and engine.py: the outcomes of a state that wait for others: a task, tasks in
-- parallel, the job of another blueprint.
use Prim.Native.String.{◌++◌ as str_append}
use avtomatika.Prelude.{ℕ, ◌+◌, String, Option, none, some, List, [], ◌∷◌, str_eq, if◌then◌else◌}
use avtomatika.Dict
use avtomatika.Dict.{get_or, has_key}
use avtomatika.Value.{
  Value, num, text, state, obj, arr, Elements, no_elements, element, Job, waiting_for_worker,
  waiting_for_parallel, waiting_for_human, waiting_for_sub_job, from_dict, dict_of, from_texts,
  update,
}
use avtomatika.Storage.Jobs.{save_job_state}
use avtomatika.Storage.Watch.{add_job_to_watch}
use avtomatika.Actions.{maybe_num}
use avtomatika.Executor.{
  World, Clock, Engine, Step, value_or_null, text_or_empty, id_of, current_state_of, log_job_event,
  snapshot, in_memory,
}
use avtomatika.Executor.Outcomes.{is_set, handle_failure}
use avtomatika.Executor.Creation.{
  number_of, nonzero, deadline, timeout_at, or_worker_timeout, entry_or_dict, NewJob,
  create_background_job,
}

-- `uuid` gives the identifiers that `uuid4` draws, and `injected` is what the telemetry writes into
-- a tracing context. `dispatch` is the dispatcher's, with the exception that it raises, if any.
module _ {F : Type 0} (uuid : ℕ → String) (injected : Job) (engine : Engine F) where
  module _ (dispatch : Job → Job → World → Step) where
    -- A task for a worker, or the approval of a human; the wait for an approval is not watched.
    unfoldable pub handle_dispatch : Clock → ℕ → Job → Job → World → Step
    handle_dispatch clock duration_ms task_info job w =
        let w₁ =
          log_job_event "task_dispatched" (current_state_of job)
            (("duration_ms", num duration_ms)
              ∷ ("timestamp", num clock.wall)
              ∷ snapshot (Dict.put "task_info" (obj (from_dict task_info)) job)
              ∷ [])
            job w in
        let paused =
          Dict.put "current_task_transitions" (entry_or_dict "transitions" task_info)
            (Dict.put "status" (state waiting_for_human) job) in
        let dispatch_deadline =
          deadline clock.wall
            (nonzero (number_of (Dict.get "dispatch_timeout_seconds" task_info))) in
        let result_deadline =
          deadline clock.wall (nonzero (number_of (Dict.get "result_timeout_seconds" task_info))) in
        let execution_timeout = number_of (Dict.get "timeout_seconds" task_info) in
        let waiting = update job (
          ("skill_version", value_or_null (Dict.get "skill_version" task_info))
          ∷ ("skill_type", value_or_null (Dict.get "skill_type" task_info))
          ∷ ("status", state waiting_for_worker)
          ∷ ("task_dispatched_at", num clock.mono)
          ∷ ("current_task_info", obj (from_dict task_info))
          ∷ ("current_task_transitions", entry_or_dict "transitions" task_info)
          ∷ ("current_task_event_transitions", entry_or_dict "event_transitions" task_info)
          ∷ ("dispatch_deadline", maybe_num dispatch_deadline)
          ∷ ("result_deadline", maybe_num result_deadline)
          ∷ ("execution_timeout_seconds", maybe_num execution_timeout)
          ∷ []) in
        let limit =
          timeout_at clock.wall dispatch_deadline result_deadline
            (or_worker_timeout execution_timeout engine.config.worker_timeout) in
        let w₂ =
          in_memory (λ m. add_job_to_watch (id_of job) limit (save_job_state (id_of job) waiting m))
            w₁ in
        if str_eq (text_or_empty (Dict.get "type" task_info)) "human_approval"
        then (none, (paused, in_memory (save_job_state (id_of job) paused) w₁))
        else dispatch waiting task_info w₂

    -- The tasks of the branches, each with its identifier.
    unfoldable branches_of : ℕ → Elements → List (String × Job)
    branches_of n no_elements = []
    branches_of n (element task tasks) = (uuid n, dict_of (some task)) ∷ branches_of (n + 1) tasks

    -- `full_task_info`; the keys of the task come last.
    unfoldable full_task_info : Job → String → Job → Job
    full_task_info job branch_id task_info =
        update
          (("task_id", text branch_id)
            ∷ ("job_id", text (id_of job))
            ∷ ("tracing_context", entry_or_dict "tracing_context" job)
            ∷ ("security", value_or_null (Dict.get "security" job))
            ∷ ("metadata", value_or_null (Dict.get "metadata" job))
            ∷ ("skill_version", value_or_null (Dict.get "skill_version" task_info))
            ∷ ("skill_type", value_or_null (Dict.get "skill_type" task_info))
            ∷ [])
          task_info

    -- The loop over the branches, which ends where the dispatcher raises.
    unfoldable dispatch_branches : Clock → String → List (String × Job) → Job → World → Step
    unfolding full_task_info
    dispatch_branches clock job_id [] job w = (none, (job, w))
    dispatch_branches clock job_id ((branch_id, task_info) ∷ branches) job w =
        let full = full_task_info job branch_id task_info in
        let tasks_info =
          Dict.put branch_id (obj (from_dict full))
            (dict_of (Dict.get "parallel_tasks_info" job)) in
        let (raised, (job', w')) =
          dispatch (Dict.put "parallel_tasks_info" (obj (from_dict tasks_info)) job) full w in
        let dispatch_deadline =
          deadline clock.wall (number_of (Dict.get "dispatch_timeout_seconds" task_info)) in
        let result_deadline =
          deadline clock.wall (number_of (Dict.get "result_timeout_seconds" task_info)) in
        let limit = timeout_at clock.wall dispatch_deadline result_deadline (
          or_worker_timeout (number_of (Dict.get "timeout_seconds" task_info))
            engine.config.worker_timeout) in
        let rest =
          dispatch_branches clock job_id branches job' (
            in_memory (add_job_to_watch (str_append job_id (str_append ":" branch_id)) limit) w') in
        elim raised [ none ↦ rest | some error ↦ (some error, (job', w')) ]

    abbrev elements_of : Option Value → Elements
    elements_of (some (arr tasks)) = tasks
    elements_of _ = no_elements

    unfoldable pub count : Elements → ℕ
    count no_elements = 0
    count (element _ tasks) = count tasks + 1

    unfoldable pub handle_parallel_dispatch : Clock → Job → Job → World → Step
    unfolding dispatch_branches branches_of count
    handle_parallel_dispatch clock parallel_info job w =
        let tasks = elements_of (Dict.get "tasks" parallel_info) in
        let aggregate_into = value_or_null (Dict.get "aggregate_into" parallel_info) in
        let branches = branches_of w.drawn tasks in
        let job₁ = update job (
          ("status", state waiting_for_parallel)
          ∷ ("current_state", aggregate_into)
          ∷ ("aggregation_target", aggregate_into)
          ∷ ("active_branches", arr (from_texts (Dict.keys branches)))
          ∷ ("aggregation_results", obj (from_dict []))
          ∷ ("parallel_tasks_info", obj (from_dict []))
          ∷ []) in
        dispatch_branches clock (id_of job) branches job₁
          (in_memory (save_job_state (id_of job) job₁) (record w { drawn = w.drawn + count tasks }))

  module _ (job_finished : String) (validate_data : Value → Value → Option String) where
    -- The job waits for a job of another blueprint; a failure to make one is a failure of the state.
    unfoldable pub handle_run_blueprint : Clock → ℕ → Job → Job → World → Job × World
    handle_run_blueprint clock duration_ms info parent w =
        let blueprint_name = text_or_empty (Dict.get "blueprint_name" info) in
        let initial_data = value_or_null (Dict.get "initial_data" info) in
        let input_schema =
          Dict.get "input_schema" (get_or blueprint_name [] engine.blueprint_contracts) in
        let failure = handle_failure job_finished validate_data engine clock duration_ms in
        let violation =
          if is_set input_schema
          then validate_data initial_data (value_or_null input_schema)
          else none in
        let args : NewJob = record {
          blueprint_name = blueprint_name;
          initial_data = initial_data;
          source = str_append "parent:" (id_of parent);
          tracing_context = Dict.get "tracing_context" parent;
          data_metadata = Dict.get "data_metadata" parent;
          dispatch_timeout = number_of (Dict.get "dispatch_timeout" info);
          result_timeout = number_of (Dict.get "result_timeout" info);
          security = Dict.get "security" parent;
          metadata = Dict.get "metadata" parent;
          parent_job_id = text (id_of parent);
        } in
        elim violation [
          | some error_msg ↦
              failure
                (str_append "Sub-blueprint '"
                  (str_append blueprint_name (str_append "' input validation failed: " error_msg)))
                parent w
          | none ↦ elim (create_background_job uuid injected engine clock args w) [
            | none ↦
                failure
                  (str_append "Failed to dispatch sub-job: Blueprint '"
                    (str_append blueprint_name "' not found."))
                  parent w
            | some (child_job_id, w') ↦
                let waiting =
                  Dict.put "current_task_transitions" (entry_or_dict "transitions" info) (
                    Dict.put "child_job_id" (text child_job_id)
                      (Dict.put "status" (state waiting_for_sub_job) parent)) in
                (waiting, in_memory (save_job_state (id_of parent) waiting) w')
          ]
        ]
