-- ===== src/WorkerService/Events.antt =====
-- services/worker_service.py: `process_worker_event`. The callbacks of `on_worker_event` are the
-- application's; they are started, and not waited for.
pub mod Superseding
use Prim.Native.String.{◌++◌ as str_append}
use avtomatika.Prelude.{
  ℕ, ◌/◌, String, Bool, true, false, not, ◌&&◌, ◌||◌, Option, none, some, List, [], ◌∷◌, ◌++◌, has,
  str_eq, ◌==◌, if◌then◌else◌,
}
use avtomatika.Dict
use avtomatika.Dict.{Dict, get_or}
use avtomatika.Value.{
  Value, null, num, text, state, obj, arr, Job, running, waiting_for_worker, from_dict, dict_of,
  from_texts, text_of, status_of,
}
use avtomatika.Storage.{Memory, Worker, Skill}
use avtomatika.Storage.Jobs.{get_job_state, save_job_state, update_job_state_atomic, enqueue_job}
use avtomatika.Storage.Watch.{remove_job_from_watch}
use avtomatika.Storage.Workers.{get_worker_info}
use avtomatika.Executor.{World, Config, Clock, value_or_null, text_or_empty, in_memory}
use avtomatika.Executor.Outcomes.{is_set}
use avtomatika.WorkerService.{
  Rxon, Python, Settings, WorkerEvent, Refusal, permission_error, verify_zero_trust, nonempty_text,
}
use avtomatika.WorkerService.Outcomes.{merge_entry}

-- The exception, or the reply: the message of an error, or that the event is accepted.
pub data EventReply : Type 0 where
  event_refused : Refusal → EventReply
  event_error : String → EventReply
  event_accepted : EventReply

-- `event.target_job_id or event.target_task_id`
abbrev target_of : WorkerEvent → Option String
target_of event = elim (nonempty_text event.target_job_id) [
  | some job_id ↦ some job_id
  | none ↦ nonempty_text event.target_task_id
]

-- The job's state, where it is there and not empty.
abbrev pub found_job : Option String → Memory → Option Job
found_job none m = none
found_job (some job_id) m = elim (get_job_state job_id m) [
  | none ↦ none
  | some [] ↦ none
  | some (e ∷ job) ↦ some (e ∷ job)
]

abbrev is_task_type : Option String → Skill → Bool
is_task_type none skill = elim skill.name [
  | none ↦ true
  | some _ ↦ elim skill.kind [ none ↦ true | some _ ↦ false ]
]
is_task_type (some task_type) skill =
    elim skill.name [ none ↦ false | some name ↦ str_eq name task_type ]
    || elim skill.kind [ none ↦ false | some kind ↦ str_eq kind task_type ]

abbrev first_skill : Option String → List Skill → Option Skill
first_skill task_type [] = none
first_skill task_type (skill ∷ skills) =
    if is_task_type task_type skill then some skill else first_skill task_type skills

-- The schemas of events and their dialect: the blueprint's, where the orchestrator itself is the
-- sender, else those of the worker's skill for the job's task.
abbrev skill_schemas : Option Worker → Option Job → Job × String
skill_schemas (some worker) (some job) =
    elim (first_skill (text_of (Dict.get "type" (dict_of (Dict.get "current_task_info" job))))
      worker.supported_skills) [
        | none ↦ ([], "json-schema")
        | some skill ↦ (skill.events_schema, skill.schema_dialect)
      ]
skill_schemas _ _ = ([], "json-schema")

abbrev contract_schemas : Dict Job → Option Job → Job × String
contract_schemas contracts none = ([], "json-schema")
contract_schemas contracts (some job) =
    let contract = get_or (text_or_empty (Dict.get "blueprint_name" job)) [] contracts in
    (
      dict_of (Dict.get "events_schema" contract),
      text_or_empty (some (get_or "schema_dialect" (text "json-schema") contract)),
    )

unfoldable event_schemas : Dict Job → String → WorkerEvent → Memory → Job × String
event_schemas contracts sender event m =
    let job = found_job (target_of event) m in
    if str_eq sender "ghost"
    then contract_schemas contracts job
    else skill_schemas (get_worker_info sender m) job

-- The senders that the event has passed, the last one included.
unfoldable extended_chain : String → WorkerEvent → List String
extended_chain sender event =
    if not (str_eq sender "ghost")
      && (not (has sender event.bubbling_chain) && not (str_eq sender event.origin_worker_id))
    then event.bubbling_chain ++ sender ∷ []
    else event.bubbling_chain

unfoldable update_progress : Job → Job → Job
update_progress payload job =
    Dict.put "progress_message" (get_or "message" (text "") payload)
      (Dict.put "progress" (get_or "progress" (num 0) payload) job)

-- The state that the event leads the job to, where it waits for a worker.
unfoldable pub event_transition : WorkerEvent → Job → Option String
event_transition event job = elim (status_of (Dict.get "status" job)) [
  | some waiting_for_worker ↦ nonempty_text (
      text_of (Dict.get event.event_type (dict_of (Dict.get "current_task_event_transitions" job))))
  | _ ↦ none
]

-- The job that an event has taken away from its task: results of that task are stale.
unfoldable pub superseded : WorkerEvent → String → Job → Job
superseded event next_state job = Dict.put "status" (state running) (
    Dict.put "current_state" (text next_state) (
      Dict.put "current_task_id" (text (str_append "superseded_by_event:" event.event_id))
        (merge_entry "state_history" event.payload job)))

abbrev pub supersede_to : WorkerEvent → String → Job → Option String → Memory → Memory
supersede_to event job_id job none m = m
supersede_to event job_id job (some next_state) m =
    enqueue_job job_id
      (remove_job_from_watch job_id (save_job_state job_id (superseded event next_state job) m))

abbrev pub supersede_found : WorkerEvent → String → Option Job → Memory → Memory
supersede_found event job_id none m = m
supersede_found event job_id (some job) m =
    supersede_to event job_id job (event_transition event job) m

abbrev pub supersede_at : WorkerEvent → Option String → Memory → Memory
supersede_at event none m = m
supersede_at event (some job_id) m = supersede_found event job_id (found_job (some job_id) m) m

unfoldable pub supersede : WorkerEvent → Memory → Memory
supersede event m = supersede_at event (nonempty_text event.target_job_id) m

unfoldable log_event : ℕ → String → WorkerEvent → World → World
log_event now sender event w = record w {
  history =
      w.history
      ++ ((
        "job_id",
        elim (nonempty_text event.target_job_id) [ none ↦ text "system" | some i ↦ text i ],
      )
          ∷ ("state", text "running")
          ∷ ("event_type", text (str_append "worker_event:" event.event_type))
          ∷ ("worker_id", text event.origin_worker_id)
          ∷ (
            "timestamp",
            num (elim event.timestamp [ none ↦ now | some t ↦ if t == 0 then now else t ]),
          )
          ∷ (
            "context_snapshot",
            obj (
                from_dict (
                  ("event_id", text event.event_id)
                  ∷ ("payload", obj (from_dict event.payload))
                  ∷ ("sender_id", text sender)
                  ∷ [])),
          )
          ∷ [])
        ∷ [];
}

abbrev notify_found : Config → WorkerEvent → String → Option Job → World → World
notify_found config event job_id none w = w
notify_found config event job_id (some job) w =
    let payload =
      ("event", text (str_append "worker_event:" event.event_type))
      ∷ ("job_id", text job_id)
      ∷ ("status", get_or "status" (text "running") job)
      ∷ ("result", obj (from_dict event.payload))
      ∷ ("security", if config.detailed_api_responses then event.security else null)
      ∷ ("metadata", event.metadata)
      ∷ ("timestamp", elim event.timestamp [ none ↦ null | some t ↦ num t ])
      ∷ [] in
    if is_set (Dict.get "webhook_url" job)
    then record w {
      webhooks = w.webhooks ++ (text_or_empty (Dict.get "webhook_url" job), payload) ∷ [];
    }
    else w

-- The webhook of the job that the event is about.
unfoldable notify : Config → WorkerEvent → World → World
notify config event w = elim (nonempty_text event.target_job_id) [
  | none ↦ w
  | some job_id ↦ notify_found config event job_id (found_job (some job_id) w.memory) w
]

module _ (rxon : Rxon) (python : Python) (settings : Settings) (config : Config)
    (contracts : Dict Job) where
  -- The message of a payload that does not fit the schema of its event.
  unfoldable event_violation : String → WorkerEvent → Memory → Option String
  unfolding event_schemas
  event_violation sender event m =
      let (schemas, dialect) = event_schemas contracts sender event m in
      if str_eq dialect "json-schema"
      then elim (Dict.get event.event_type schemas) [
        | none ↦ none
        | some schema ↦ rxon.validate_data (obj (from_dict event.payload)) schema
      ]
      else none

  -- The progress is written under the target's name, whatever is there.
  unfoldable pub record_progress : WorkerEvent → Memory → Memory
  unfolding update_progress
  record_progress event m =
      if str_eq event.event_type rxon.event_progress
      then elim (target_of event) [
        | none ↦ m
        | some target_id ↦ (update_job_state_atomic target_id (update_progress event.payload) m).1
      ]
      else m

  unfoldable accept_event : Clock → String → WorkerEvent → World → World
  unfolding record_progress supersede log_event notify
  accept_event clock sender event w = notify config event (
      log_event (clock.wall / 1000) sender event
        (in_memory (λ m. supersede event (record_progress event m)) w))

  abbrev check_event : Clock → String → WorkerEvent → World → EventReply × World
  check_event clock sender event w =
      if str_eq event.worker_id sender
      then elim (event_violation sender event w.memory) [
        | some error_msg ↦ (event_error error_msg, w)
        | none ↦ (
          event_accepted,
          accept_event clock sender (record event { bubbling_chain = extended_chain sender event })
              w,
        )
      ]
      else (event_refused (permission_error "Immediate sender ID mismatch"), w)

  abbrev read_event : Clock → String → Option WorkerEvent → World → EventReply × World
  read_event clock sender none w = (event_error "Invalid event payload", w)
  read_event clock sender (some event) w = check_event clock sender event w

  unfoldable process_worker_event : Clock → String → Job → World → EventReply × World
  unfolding event_violation accept_event extended_chain
  process_worker_event clock sender raw_payload w =
      elim (verify_zero_trust rxon python settings (clock.wall / 1000) raw_payload sender
        ("bubbling_chain" ∷ []) w.memory) [
          | some refusal ↦ (event_refused refusal, w)
          | none ↦ read_event clock sender (rxon.worker_event raw_payload) w
        ]
