-- ===== src/Executor.antt =====
-- executor.py: `JobExecutor`, what it reads and what it writes. A job's state that was read from the
-- store is a copy, as with the Redis backend; it is stored again by `save_job_state`. The keys "id",
-- "current_state" and "blueprint_name" are written wherever a job is made; where one were missing the
-- model reads the empty text, and the code raises.
pub mod Outcomes
pub mod Creation
pub mod Dispatching
pub mod Process
use avtomatika.Prelude.{ℕ, String, Bool, true, false, Option, none, some, List, [], ◌∷◌, ◌++◌, ◌||◌}
use avtomatika.Dict
use avtomatika.Dict.{Dict, get_or}
use avtomatika.Value.{Value, null, text, obj, Job, Status, from_dict, dict_of, text_of}
use avtomatika.Storage.{Memory}
use avtomatika.Actions.{ActionFactory, PendingEvent}
use avtomatika.Blueprint.{Blueprint}

-- The store, and what leaves the orchestrator: the events for the history, the webhooks with their
-- addresses, the calls of `on_job_finished`, the events for the worker service, and the commands for the workers' web sockets. `processing` is
-- `_processing_messages`, and `drawn` counts the identifiers drawn from `uuid4`.
pub record World : Type 0 where
  pub memory : Memory
  pub history : List Job
  pub webhooks : List (String × Job)
  pub notified : List (String × (Status × Job))
  pub emitted : List (String × PendingEvent)
  pub worker_history : List Job
  pub commands : List (String × Job)
  pub processing : List String
  pub drawn : ℕ

-- The settings that the executor reads; `max_transitions` is `none` where it is no `int`.
pub record Config : Type 0 where
  pub job_max_retries : ℕ
  pub max_transitions : Option ℕ
  pub worker_timeout : ℕ
  pub detailed_api_responses : Bool

-- `time()` and `monotonic()`, in milliseconds.
pub record Clock : Type 0 where
  pub wall : ℕ
  pub mono : ℕ

-- The part of `JobContext` that comes from the job.
pub record Context : Type 0 where
  pub job_id : String
  pub current_state : String
  pub initial_data : Job
  pub state_history : Job
  pub client : Job
  pub aggregation_results : Job
  pub webhook_url : Option Value

-- What a handler leaves: its actions, the context's dicts that it may have changed, and the
-- exception that it raised, if any.
pub record Ran : Type 0 where
  pub actions : ActionFactory
  pub initial_data : Job
  pub state_history : Job
  pub aggregation_results : Job
  pub raised : Option String

pub record Engine (F : Type 0) : Type 0 where
  pub blueprints : Dict (Blueprint F Context)
  pub blueprint_contracts : Dict Job
  pub config : Config

-- The exception that a call raised, if any, the job's state and the world after it.
abbrev pub Step : Type 0
Step = Option String × (Job × World)

abbrev pub value_or_null : Option Value → Value
value_or_null none = null
value_or_null (some v) = v

abbrev pub text_or_empty : Option Value → String
text_or_empty v = elim (text_of v) [ none ↦ "" | some s ↦ s ]

abbrev pub id_of : Job → String
id_of job = text_or_empty (Dict.get "id" job)

abbrev pub current_state_of : Job → String
current_state_of job = text_or_empty (Dict.get "current_state" job)

-- `job_state.get("client_config", {}).get("token")`
abbrev pub client_token_of : Job → Value
client_token_of job = value_or_null (Dict.get "token" (dict_of (Dict.get "client_config" job)))

-- `history_storage.log_job_event`: the keys that all events have, and those of this one.
unfoldable pub log_job_event : String → String → Job → Job → World → World
log_job_event event_type event_state extra job w = record w {
  history =
      w.history
      ++ (("job_id", text (id_of job))
          ∷ ("client_token", client_token_of job)
          ∷ ("state", text event_state)
          ∷ ("event_type", text event_type)
          ∷ extra)
        ∷ [];
}

abbrev pub snapshot : Job → String × Value
snapshot job = ("context_snapshot", obj (from_dict job))

abbrev pub in_memory : (Memory → Memory) → World → World
in_memory f w = record w { memory = f w.memory }
