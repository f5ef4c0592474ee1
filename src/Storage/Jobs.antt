-- ===== src/Storage/Jobs.antt =====
-- storage/memory.py: the jobs' states, the queue of job ids and the quarantine.
use avtomatika.Prelude.{
  ℕ, ◌≡◌, String, Bool, false, Option, none, some, List, [], ◌∷◌, ◌++◌, filter, length, str_eq,
  if◌then◌else◌,
}
use avtomatika.Dict
use avtomatika.Dict.{Dict, get_or, has_key}
use avtomatika.Value.{Job, text_of, dict_of, update}
use avtomatika.Storage.{Memory}

unfoldable pub get_job_state : String → Memory → Option Job
get_job_state job_id m = Dict.get job_id m.jobs

unfoldable pub save_job_state : String → Job → Memory → Memory
save_job_state job_id state m = record m { jobs = Dict.put job_id state m.jobs }

unfoldable pub update_job_state : String → Job → Memory → Job × Memory
update_job_state job_id update_data m =
    let state = update (get_or job_id [] m.jobs) update_data in
    (state, record m { jobs = Dict.put job_id state m.jobs })

-- The callback sees the stored state, or `{}`; what it returns is stored.
unfoldable pub update_job_state_atomic : String → (Job → Job) → Memory → Job × Memory
update_job_state_atomic job_id update_callback m =
    let state = update_callback (get_or job_id [] m.jobs) in
    (state, record m { jobs = Dict.put job_id state m.jobs })

pub update_job_state_atomic-found :
    (job_id : String) (f : Job → Job) (job : Job) (m : Memory)
    → get_job_state job_id m ≡ some job
    → update_job_state_atomic job_id f m ≡ (f job, save_job_state job_id (f job) m)
unfolding update_job_state_atomic save_job_state get_job_state
update_job_state_atomic-found job_id f job m found = cc

unfoldable pub enqueue_job : String → Memory → Memory
enqueue_job job_id m = record m { job_queue = m.job_queue ++ job_id ∷ [] }

abbrev take_first : List String → Memory → Option (String × String) × Memory
take_first [] m = (none, m)
take_first (job_id ∷ rest) m = (some (job_id, "memory-msg-id"), record m { job_queue = rest })

-- `none` is the time-out: no id arrived while the call waited.
unfoldable pub dequeue_job : Memory → Option (String × String) × Memory
dequeue_job m = take_first m.job_queue m

unfoldable pub ack_job : String → Memory → Memory
ack_job message_id m = m

unfoldable pub quarantine_job : String → Memory → Memory
quarantine_job job_id m = record m { quarantine_queue = m.quarantine_queue ++ job_id ∷ [] }

-- `state and state.get("client_config", {}).get("token") == client_token`
owned_by : String → Option Job → Bool
owned_by token none = false
owned_by token (some state) =
    elim (text_of (Dict.get "token" (dict_of (Dict.get "client_config" state)))) [
      | none ↦ false
      | some s ↦ str_eq s token
    ]

unfoldable get_quarantined_jobs : Option String → Memory → List String
unfolding owned_by
get_quarantined_jobs none m = m.quarantine_queue
get_quarantined_jobs (some client_token) m =
    if str_eq client_token ""
    then m.quarantine_queue
    else filter (λ job_id. owned_by client_token (Dict.get job_id m.jobs)) m.quarantine_queue

unfoldable get_job_queue_length : Memory → ℕ
get_job_queue_length m = length m.job_queue
