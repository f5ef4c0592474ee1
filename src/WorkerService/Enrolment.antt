-- ===== src/WorkerService/Enrolment.antt =====
-- services/worker_service.py: the registration of a worker, and its heartbeats.
use avtomatika.Prelude.{
  ℕ, ◌*◌, ◌/◌, String, Bool, true, false, not, ◌&&◌, ◌||◌, Option, none, some, List, [], ◌∷◌, ◌++◌,
  filter, str_eq, if◌then◌else◌,
}
use avtomatika.Dict
use avtomatika.Value.{Value, text, Job, cancelled, status_of, texts_of, text_of}
use avtomatika.Storage.{Memory, Worker, WorkerUpdate, Skill}
use avtomatika.Storage.Jobs.{get_job_state}
use avtomatika.Storage.Workers.{
  register_worker, get_worker_info, update_worker_status, refresh_worker_ttl,
}
use avtomatika.Executor.{World, Clock, value_or_null, in_memory}
use avtomatika.Executor.Process.{is_terminal}
use avtomatika.WorkerService.{
  Rxon, Python, Settings, Refusal, permission_error, value_error, verify_zero_trust, nonempty_text,
}

-- `history_storage.log_worker_event`
unfoldable log_worker_event : String → String → Value → World → World
log_worker_event worker_id event_type timestamp w = record w {
  worker_history =
      w.worker_history
      ++ (("worker_id", text worker_id)
          ∷ ("event_type", text event_type)
          ∷ ("timestamp", timestamp)
          ∷ [])
        ∷ [];
}

-- The reply to a heartbeat, or `None` for a worker that is not known.
pub data HeartbeatReply : Type 0 where
  ok : (require_full_sync : Bool) (cancel_tasks : List String) → HeartbeatReply
  ttl_refreshed : HeartbeatReply
  unknown_worker : HeartbeatReply

abbrev is_no_list : List Skill → Bool
is_no_list [] = true
is_no_list (_ ∷ _) = false

-- The worker has the skills that the message's hash names.
abbrev same_hash : Option Worker → Job → Bool
same_hash none update = false
same_hash (some worker) update = elim (nonempty_text (text_of (Dict.get "skills_hash" update))) [
  | none ↦ false
  | some new_hash ↦ elim worker.skills_hash [ none ↦ false | some hash ↦ str_eq hash new_hash ]
]

abbrev lacks_skills : Option Worker → Bool
lacks_skills none = false
lacks_skills (some worker) = is_no_list worker.supported_skills

-- The task's identifier names a job that has ended or is cancelled.
abbrev pub is_over : Memory → String → Bool
is_over m task_id = elim (get_job_state task_id m) [
  | none ↦ false
  | some job ↦
      is_terminal (status_of (Dict.get "status" job))
      || elim (status_of (Dict.get "status" job)) [ some cancelled ↦ true | _ ↦ false ]
]

module _ (rxon : Rxon) (python : Python) (settings : Settings) where
  abbrev time_to_live : ℕ
  time_to_live = settings.health_check_interval * 2

  -- A registration that rxon accepts; `validate_identifier` looks at the worker's name.
  abbrev register_valid : Clock → String → Value → Option Worker → World → Option Refusal × World
  register_valid clock worker_id timestamp none w =
      (some (value_error "Invalid WorkerRegistration payload"), w)
  register_valid clock worker_id timestamp (some worker) w =
      if rxon.is_identifier worker_id
      then (
        none,
        log_worker_event worker_id "registered" timestamp
            (in_memory (register_worker clock.mono worker_id worker time_to_live) w),
      )
      else (some (value_error "Invalid worker_id"), w)

  unfoldable pub register : Clock → Job → String → World → Option Refusal × World
  unfolding log_worker_event
  register clock worker_data authenticated_worker_id w =
      elim (text_of (Dict.get "worker_id" worker_data)) [
        | none ↦ (some (value_error "Missing or invalid worker_id in registration data"), w)
        | some worker_id ↦
            if not (str_eq worker_id authenticated_worker_id)
            then (some (permission_error "Immediate sender ID mismatch"), w)
            else elim (verify_zero_trust rxon python settings (clock.wall / 1000) worker_data
                worker_id [] w.memory) [
                  | some refusal ↦ (some refusal, w)
                  | none ↦
                      register_valid clock worker_id
                        (value_or_null (Dict.get "timestamp" worker_data))
                        (rxon.worker_registration worker_data) w
                ]
      ]

  -- `changes` are the keys of the update that the store keeps, with or without the skills.
  module _ (changes : Job → WorkerUpdate) where
    abbrev kept_changes : Bool → Job → WorkerUpdate
    kept_changes same update =
        if same then record (changes update) { supported_skills = none } else changes update

    abbrev reply_to : Bool → Job → String → Option Worker × Memory → World → HeartbeatReply × World
    reply_to full_sync update worker_id (none, m) w = (ok full_sync [], record w { memory = m })
    reply_to full_sync update worker_id (some worker, m) w = (
      ok full_sync (filter (is_over m) (texts_of (Dict.get "current_tasks" update))),
      log_worker_event worker_id "status_update" (value_or_null (Dict.get "timestamp" update))
          (record w { memory = m }),
    )

    abbrev refreshed : Bool × Memory → World → HeartbeatReply × World
    refreshed (found, m) w =
        (if found then ttl_refreshed else unknown_worker, record w { memory = m })

    -- The exception, or the reply.
    unfoldable update_worker_heartbeat :
        Clock → String → Job → World → (Option Refusal × HeartbeatReply) × World
    unfolding log_worker_event
    update_worker_heartbeat clock worker_id [] w =
        let (reply, w') =
          refreshed (refresh_worker_ttl clock.mono worker_id time_to_live w.memory) w in
        ((none, reply), w')
    update_worker_heartbeat clock worker_id (e ∷ update) w =
        let data' = e ∷ update in
        let current = get_worker_info worker_id w.memory in
        let same = same_hash current data' in
        let (reply, w') =
          reply_to (same && lacks_skills current) data' worker_id
            (update_worker_status clock.mono worker_id (kept_changes same data') time_to_live
              w.memory)
            w in
        elim (verify_zero_trust rxon python settings (clock.wall / 1000) data' worker_id []
          w.memory) [
            | some refusal ↦ ((some refusal, unknown_worker), w)
            | none ↦ ((none, reply), w')
          ]
