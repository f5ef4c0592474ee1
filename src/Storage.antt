-- ===== src/Storage.antt =====
-- storage/memory.py: `MemoryStorage`, the containers of the in-memory backend. Each method holds
-- `_lock` for its whole body, so a method is one step: a function from the store to the store.
-- Times are whole milliseconds of `monotonic()`, which the methods take as `now`.
pub mod Jobs
pub mod Workers
pub mod Tasks
pub mod Watch
pub mod Keys
pub mod Locks
pub mod Tokens
pub mod Quotas
pub mod Reset
pub mod Operations
pub mod Invariant
use avtomatika.Prelude.{ℕ, String, Bool, Option, none, some, List, []}
use avtomatika.Prelude.Int.{ℤ}
use avtomatika.Dict.{Dict}
use avtomatika.Value.{Value, Job}

-- An entry of `supported_skills`; `kind` is its key "type".
pub record Skill : Type 0 where
  pub name : Option String
  pub kind : Option String
  pub version : Value
  pub properties : Job
  pub input_schema : Value
  pub output_schema : Value
  pub events_schema : Job
  pub schema_dialect : String
  pub output_statuses : List String

-- An entry of `hot_skills`: a name, or an older object with a key "name".
pub data HotSkill : Type 0 where
  plain : String → HotSkill
  described : Option String → HotSkill

-- The keys of a worker's dict that the orchestrator reads. A reputation is in units of 1/10000, as
-- it is rounded to four digits, and a cost in units of the price list.
pub record Worker : Type 0 where
  pub worker_id : String
  pub status : Option String
  pub supported_skills : List Skill
  pub hot_skills : List HotSkill
  pub reputation : Option ℕ
  pub internal_load : Option ℤ
  pub cost_per_skill : Dict ℕ
  pub websockets : Bool
  pub skills_hash : Option String
  pub resources : Value
  pub installed_artifacts : List Value
  pub installed_software : Job
  pub extra : Job

-- An update dict for a worker: the keys that it holds.
pub record WorkerUpdate : Type 0 where
  pub status : Option String
  pub supported_skills : Option (List Skill)
  pub hot_skills : Option (List HotSkill)
  pub reputation : Option ℕ
  pub internal_load : Option ℤ

-- An item of a worker's `PriorityQueue`, the tuple (-priority, counter, payload).
pub record Item : Type 0 where
  pub priority : ℤ
  pub counter : ℕ
  pub payload : Job

pub record Memory : Type 0 where
  pub jobs : Dict Job
  pub workers : Dict Worker
  pub worker_ttls : Dict ℕ
  pub worker_task_queues : Dict (List Item)
  pub job_queue : List String
  pub quarantine_queue : List String
  pub watched_jobs : Dict ℕ
  pub client_configs : Dict Job
  pub quotas : Dict ℕ
  pub worker_tokens : Dict String
  pub generic_keys : Dict Value
  pub generic_key_ttls : Dict ℕ
  pub locks : Dict (String × ℕ)
  pub queue_counter : ℕ

-- `MemoryStorage()`
abbrev pub empty : Memory
empty = record {
  jobs = [];
  workers = [];
  worker_ttls = [];
  worker_task_queues = [];
  job_queue = [];
  quarantine_queue = [];
  watched_jobs = [];
  client_configs = [];
  quotas = [];
  worker_tokens = [];
  generic_keys = [];
  generic_key_ttls = [];
  locks = [];
  queue_counter = 0;
}
