-- ===== src/Dispatcher/Dispatching.antt =====
-- dispatcher.py: `dispatch`, from a task to its place in the queue of a worker.
pub mod Eligible
pub mod Owner
use Prim.Native.String.{◌++◌ as str_append}
use avtomatika.Prelude.{
  ℕ, ◌+◌, String, Bool, true, false, not, Option, none, some, List, [], ◌∷◌, filter, has, str_eq,
  leb, if◌then◌else◌,
}
use avtomatika.Prelude.Int.{ℤ, pos}
use avtomatika.Dict
use avtomatika.Dict.{get_or, has_key}
use avtomatika.Value.{Value, null, num, text, obj, Job, from_dict, dict_of, text_of, update}
use avtomatika.Storage.{Memory, Worker}
use avtomatika.Storage.Jobs.{update_job_state_atomic}
use avtomatika.Storage.Tasks.{enqueue_task_for_worker}
use avtomatika.Storage.Watch.{add_job_to_watch}
use avtomatika.Storage.Workers.{
  find_workers_by_hot_skill, find_workers_for_skill, increment_worker_load, full_reputation,
  or_else,
}
use avtomatika.Executor.{World, Clock, Step, value_or_null, text_or_empty, id_of, in_memory}
use avtomatika.Executor.Outcomes.{is_set}
use avtomatika.Executor.Creation.{number_of, or_dict, entry_or_dict}
use avtomatika.Orchestrator.{is_branch, watch_key}
use avtomatika.WorkerService.Outcomes.{merge_entry}
use avtomatika.Dispatcher.{
  cost_of, below, select_default, select_round_robin, select_least_connections, select_cheapest,
  select_best_value, select_overflow,
}
use avtomatika.Dispatcher.Compliance.{Matching, compliant}

-- The settings that the dispatcher reads; a reputation is in units of 1/10000.
pub record DispatchConfig : Type 0 where
  pub max_candidates : ℕ
  pub min_reputation : ℕ
  pub soft_limit : ℕ
  pub worker_timeout : ℕ

-- The requirements with the parameters, the transitions and the skill's version and type.
unfoldable pub requirements_of : Job → Job → Job
requirements_of task_info job =
    let asked = dict_of (some (or_dict (Dict.get "resource_requirements" task_info))) in
    let with_default = λ (key : String) (d : Job).
      if has_key key d then d else Dict.put key (or_dict (Dict.get key task_info)) d in
    let skill_entry = λ (key : String).
      if is_set (Dict.get key task_info)
      then value_or_null (Dict.get key task_info)
      else value_or_null (Dict.get key job) in
    Dict.put "skill_type" (skill_entry "skill_type") (
      Dict.put "skill_version" (skill_entry "skill_version")
        (with_default "transitions" (with_default "params" asked)))

abbrev pub is_affordable : String → Option ℕ → Worker → Bool
is_affordable task_type none w = true
is_affordable task_type (some max_cost) w = not (below (some max_cost) (cost_of task_type w))

abbrev pub is_trusted : ℕ → Worker → Bool
is_trusted min_reputation w = leb min_reputation (or_else w.reputation full_reputation)

-- A list that is not empty, or the message of the error.
abbrev some_or : String → List Worker → Option (List Worker)
some_or message [] = none
some_or message (w ∷ ws) = some (w ∷ ws)

-- The job's state once its task is in the queue of the worker.
unfoldable pub update_dispatch_state : ℕ → String → String → Job → Job → Job
update_dispatch_state now worker_id task_id task_info job =
    let placed =
      if is_branch task_id job
      then merge_entry "parallel_tasks_info" ((task_id, obj (from_dict task_info)) ∷ []) (
          merge_entry "branch_dispatched_at" ((task_id, num now) ∷ [])
            (merge_entry "branch_worker_ids" ((task_id, text worker_id) ∷ []) job))
      else Dict.put "current_task_info" (obj (from_dict task_info)) (
          Dict.put "task_dispatched_at" (num now)
            (Dict.put "assigned_worker_id" (text worker_id) job)) in
    Dict.put "task_worker_id" (text worker_id) (Dict.put "current_task_id" (text task_id) placed)

-- The deadline for the result; one that is no number stands for thirty seconds.
unfoldable pub dispatch_timeout : ℕ → ℕ → Job → Job → ℕ
dispatch_timeout worker_timeout now task_info job = elim (Dict.get "result_deadline" job) [
  | some (num t) ↦ t
  | some null ↦ now + or_else (number_of (Dict.get "timeout_seconds" task_info)) worker_timeout
  | none ↦ now + or_else (number_of (Dict.get "timeout_seconds" task_info)) worker_timeout
  | _ ↦ now + 30000
]

abbrev metadata_for : Job → Job → Job
metadata_for [] params = []
metadata_for ((k, v) ∷ metadata) params =
    let rest = metadata_for metadata params in if has_key k params then (k, v) ∷ rest else rest

-- `cached` is what the cache of cachebox and `get_workers` give for the ids, in their order;
-- `uuid` gives the identifiers that `uuid4` draws, `injected` is what the telemetry writes into a
-- tracing context, and `to_dict` is rxon's for a task.
module _ (matching : Matching) (config : DispatchConfig)
    (cached : List String → Memory → List Worker) (uuid : ℕ → String) (injected : Job)
    (to_dict : Job → Job) where
  -- The workers that have the skill hot, else those that have it.
  unfoldable pub capable : ℕ → String → Memory → List Worker
  capable now task_type m =
      let idle = cached (find_workers_for_skill now task_type m) m in
      elim (cached (find_workers_by_hot_skill now task_type m) m) [ [] ↦ idle | w ∷ ws ↦ w ∷ ws ]

  -- Of these, the workers that comply, that are cheap enough, and that are trusted.
  unfoldable pub eligible : String → Job → Job → List Worker → List Worker
  eligible task_type task_info job workers = filter (is_trusted config.min_reputation) (
      filter (is_affordable task_type (number_of (Dict.get "max_cost" task_info))) (
        compliant matching config.max_candidates task_type (requirements_of task_info job) 0
          workers))

  unfoldable pub select : String → String → Option ℕ → List Worker → Memory → Option Worker × Memory
  select strategy task_type max_cost workers m =
      if str_eq strategy "round_robin"
      then select_round_robin task_type workers m
      else if str_eq strategy "least_connections"
      then (select_least_connections workers, m)
      else if str_eq strategy "cheapest"
      then (select_cheapest task_type workers, m)
      else if str_eq strategy "best_value"
      then (select_best_value task_type workers, m)
      else if str_eq strategy "overflow"
      then (select_overflow config.soft_limit task_type max_cost workers m, m)
      else (select_default task_type workers, m)

  -- The fields of `TaskPayload`, with the tracing context that `inject` fills.
  unfoldable pub task_payload : ℕ → String → Job → Job → Job
  task_payload now task_id task_info job =
      let params = dict_of (Dict.get "params" task_info) in
      let metadata = metadata_for (dict_of (Dict.get "data_metadata" job)) params in
      ("job_id", text (id_of job))
      ∷ ("task_id", text task_id)
      ∷ ("type", value_or_null (Dict.get "type" task_info))
      ∷ ("params", entry_or_dict "params" task_info)
      ∷ ("tracing_context", obj (from_dict injected))
      ∷ ("params_metadata", elim metadata [ [] ↦ null | e ∷ es ↦ obj (from_dict (e ∷ es)) ])
      ∷ ("priority", get_or "priority" (num 0) task_info)
      ∷ ("deadline", value_or_null (Dict.get "result_deadline" job))
      ∷ ("security", value_or_null (Dict.get "security" job))
      ∷ ("metadata", value_or_null (Dict.get "metadata" job))
      ∷ ("timestamp", num now)
      ∷ []

  unfoldable pub payload_of : ℕ → String → Job → Job → Job
  payload_of now task_id task_info job = to_dict (task_payload now task_id task_info job)

  -- The task is put into the queue of the worker, which has one task more, and the job is watched.
  unfoldable pub place_task : Clock → String → String → Job → Job → World → Job × World
  place_task clock worker_id task_id task_info job w =
      let now = clock.wall in
      let priority : ℤ = pos (or_else (number_of (Dict.get "priority" task_info)) 0) in
      let m₁ = increment_worker_load worker_id (
        enqueue_task_for_worker worker_id (payload_of now task_id task_info job) priority
          w.memory) in
      let (updated, m₂) =
        update_job_state_atomic (id_of job) (update_dispatch_state now worker_id task_id task_info)
          m₁ in
      let job' = update job updated in
      (
        job',
        record w {
          memory =
              add_job_to_watch (watch_key (is_branch task_id job') (id_of job) task_id)
                (dispatch_timeout config.worker_timeout now task_info job') m₂;
        },
      )

  -- The task's own identifier, or a new one, with the world in which it is drawn.
  abbrev pub task_id_for : Job → World → String × World
  task_id_for task_info w =
      if is_set (Dict.get "task_id" task_info)
      then (text_or_empty (Dict.get "task_id" task_info), w)
      else (str_append "task-" (uuid w.drawn), record w { drawn = w.drawn + 1 })

  abbrev pub dispatch_to : Clock → Job → Job → Option Worker → World → Step
  dispatch_to clock job task_info none w = (some "No worker was selected", (job, w))
  dispatch_to clock job task_info (some worker) w =
      let (task_id, w') = task_id_for task_info w in
      if str_eq worker.worker_id ""
      then (some "Selected worker has no worker_id", (job, w))
      else (none, place_task clock worker.worker_id task_id task_info job w')

  abbrev pub dispatch_among : Clock → Job → Job → List Worker → World → Step
  dispatch_among clock job task_info [] w = (some "No worker satisfies the requirements", (job, w))
  dispatch_among clock job task_info (worker ∷ workers) w =
      let strategy = text_or_empty (some (get_or "dispatch_strategy" (text "default") task_info)) in
      let (selected, m) =
        select strategy (text_or_empty (Dict.get "type" task_info))
          (number_of (Dict.get "max_cost" task_info)) (worker ∷ workers) w.memory in
      dispatch_to clock job task_info selected (record w { memory = m })

  -- The code has a message of its own for each of the reasons that no worker is left.
  unfoldable pub dispatch : Clock → Job → Job → World → Step
  unfolding eligible capable select place_task
  dispatch clock job task_info w =
      let task_type = text_or_empty (Dict.get "type" task_info) in
      if str_eq task_type ""
      then (some "Task info must include a 'type'", (job, w))
      else dispatch_among clock job task_info
          (eligible task_type task_info job (capable clock.mono task_type w.memory)) w
