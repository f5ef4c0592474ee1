-- ===== src/Executor/Creation.antt =====
-- executor.py and engine.py: the creation of a job, and the times that a job waits.
pub mod Created
use Prim.Native.Nat.{min}
use avtomatika.Prelude.{ℕ, ◌+◌, String, true, Option, none, some, [], ◌∷◌, ◌==◌, if◌then◌else◌}
use avtomatika.Dict
use avtomatika.Dict.{get_or, has_key}
use avtomatika.Value.{Value, null, boolean, num, text, state, obj, Job, pending, from_dict}
use avtomatika.Storage.Jobs.{save_job_state, enqueue_job}
use avtomatika.Storage.Watch.{add_job_to_watch}
use avtomatika.Actions.{maybe_num}
use avtomatika.Blueprint.{Blueprint}
use avtomatika.Executor.{
  World, Clock, Engine, Context, value_or_null, log_job_event, snapshot, in_memory,
}
use avtomatika.Executor.Outcomes.{is_set}

-- A number that an entry holds.
abbrev pub number_of : Option Value → Option ℕ
number_of (some (num n)) = some n
number_of _ = none

-- `None` and 0 are false.
abbrev pub nonzero : Option ℕ → Option ℕ
nonzero none = none
nonzero (some n) = if n == 0 then none else some n

abbrev pub deadline : ℕ → Option ℕ → Option ℕ
deadline now none = none
deadline now (some timeout) = some (now + timeout)

-- The earlier of the deadlines that are there, else the time that a task may take.
abbrev pub timeout_at : ℕ → Option ℕ → Option ℕ → ℕ → ℕ
timeout_at now (some a) (some b) timeout = min a b
timeout_at now (some a) none timeout = a
timeout_at now none (some b) timeout = b
timeout_at now none none timeout = now + timeout

-- `execution_timeout or self.engine.config.WORKER_TIMEOUT_SECONDS`
abbrev pub or_worker_timeout : Option ℕ → ℕ → ℕ
or_worker_timeout execution_timeout timeout = elim (nonzero execution_timeout) [
  | none ↦ timeout
  | some n ↦ n
]

-- `v or {}`
abbrev pub or_dict : Option Value → Value
or_dict v = if is_set v then value_or_null v else obj (from_dict [])

-- `d.get(k, {})`
abbrev pub entry_or_dict : String → Job → Value
entry_or_dict k job = get_or k (obj (from_dict [])) job

-- The arguments of `create_background_job` that become entries of the job.
pub record NewJob : Type 0 where
  pub blueprint_name : String
  pub initial_data : Value
  pub source : String
  pub tracing_context : Option Value
  pub data_metadata : Option Value
  pub dispatch_timeout : Option ℕ
  pub result_timeout : Option ℕ
  pub security : Option Value
  pub metadata : Option Value
  pub parent_job_id : Value

-- `uuid` gives the identifiers that `uuid4` draws, and `injected` is what the telemetry writes into
-- a tracing context.
module _ {F : Type 0} (uuid : ℕ → String) (injected : Job) (engine : Engine F) where
  unfoldable pub new_job : ℕ → String → Blueprint F Context → NewJob → Job
  new_job now job_id blueprint args =
      ("id", text job_id)
      ∷ ("blueprint_name", text blueprint.name)
      ∷ ("current_state", elim blueprint.start_state [ none ↦ null | some s ↦ text s ])
      ∷ ("initial_data", args.initial_data)
      ∷ ("state_history", obj (from_dict []))
      ∷ ("status", state pending)
      ∷ (
        "tracing_context",
        if is_set args.tracing_context
            then value_or_null args.tracing_context
            else obj (from_dict injected),
      )
      ∷ (
        "client_config",
        obj (
            from_dict (
              ("token", text "internal-scheduler")
              ∷ ("plan", text "system")
              ∷ ("params", obj (from_dict (("source", text args.source) ∷ [])))
              ∷ [])),
      )
      ∷ ("data_metadata", or_dict args.data_metadata)
      ∷ ("dispatch_timeout", maybe_num args.dispatch_timeout)
      ∷ ("result_timeout", maybe_num args.result_timeout)
      ∷ ("security", if is_set args.security then value_or_null args.security else null)
      ∷ ("metadata", or_dict args.metadata)
      ∷ ("parent_job_id", args.parent_job_id)
      ∷ ("timestamp", num now)
      ∷ []

  -- The job of a known blueprint.
  unfoldable pub created : Clock → Blueprint F Context → NewJob → World → String × World
  created clock blueprint args w =
      let job_id = uuid w.drawn in
      let job = new_job clock.wall job_id blueprint args in
      let w₁ = in_memory (save_job_state job_id job) (record w { drawn = w.drawn + 1 }) in
      let w₂ : World = elim (nonzero args.dispatch_timeout) [
        | none ↦ w₁
        | some timeout ↦ in_memory (add_job_to_watch job_id (clock.wall + timeout)) w₁
      ] in
      (
        job_id,
        log_job_event "job_created" "pending"
            (snapshot job
              ∷ (
                "metadata",
                obj (from_dict (("source", text args.source) ∷ ("scheduled", boolean true) ∷ [])),
              )
              ∷ [])
            job (in_memory (enqueue_job job_id) w₂),
      )

  -- `none` is the `ValueError` of an unknown blueprint.
  unfoldable pub create_background_job : Clock → NewJob → World → Option (String × World)
  create_background_job clock args w = elim (Dict.get args.blueprint_name engine.blueprints) [
    | none ↦ none
    | some blueprint ↦ some (created clock blueprint args w)
  ]
