-- ===== src/WorkerService/Results.antt =====
-- services/worker_service.py: `process_task_result`, from the message to the reply.
pub mod Kept
pub mod Presence
pub mod Guards
pub mod Repeats
use Prim.Native.String.{◌++◌ as str_append}
use avtomatika.Prelude.{
  ℕ, ◌-◌, ◌/◌, String, Bool, true, false, not, ◌&&◌, ◌||◌, Option, none, some, List, [], ◌∷◌,
  str_eq, if◌then◌else◌,
}
use avtomatika.Dict
use avtomatika.Value.{
  Value, null, num, text, state, obj, arr, Job, Status, running, cancelled, waiting_for_parallel,
  from_dict, dict_of, texts_of, text_of, num_or, from_texts, status_of,
}
use avtomatika.Storage.{Memory, Worker, Skill}
use avtomatika.Storage.Jobs.{get_job_state, save_job_state, update_job_state_atomic, enqueue_job}
use avtomatika.Storage.Keys.{strip_prefix}
use avtomatika.Storage.Watch.{remove_job_from_watch}
use avtomatika.Storage.Workers.{get_worker_info, decrement_worker_load}
use avtomatika.Executor.{
  World, Config, Clock, Step, value_or_null, text_or_empty, id_of, current_state_of, log_job_event,
  in_memory,
}
use avtomatika.Executor.Outcomes.{is_set}
use avtomatika.Executor.Process.{is_terminal}
use avtomatika.Orchestrator.{is_branch, watch_key}
use avtomatika.WorkerService.{
  Rxon, Python, Settings, Refusal, permission_error, value_error, verify_zero_trust,
}
use avtomatika.WorkerService.Outcomes.{
  Answer, Reason, refused, ignored, accepted, not_found, mismatch, stale, late, was_cancelled,
  already_terminated, merge_entry, merge_nonempty, copy_set, penalise, rate_worker, finish_task,
}

-- `task_id in (job_state.get("active_branches") or [])` chooses the worker of the branch.
unfoldable pub verify_job_ownership_robust : String → String → Job → Bool
verify_job_ownership_robust task_id worker_id job =
    let assigned =
      if is_branch task_id job
      then Dict.get task_id (dict_of (Dict.get "branch_worker_ids" job))
      else Dict.get "assigned_worker_id" job in
    not (is_set assigned) || str_eq (text_or_empty assigned) worker_id

-- `job_state.get("status") == JOB_STATUS_WAITING_FOR_PARALLEL`
abbrev pub awaits_branches : Job → Bool
awaits_branches job = elim (status_of (Dict.get "status" job)) [
  | some waiting_for_parallel ↦ true
  | _ ↦ false
]

-- The time at which the worker took the task, where the result has one.
unfoldable pub with_picked_up : String → Job → Job → Job
with_picked_up task_id payload job =
    let picked_up = value_or_null (Dict.get "picked_up_at" payload) in
    let marked =
      if is_branch task_id job
      then merge_entry "branch_picked_up_at" ((task_id, picked_up) ∷ []) job
      else Dict.put "task_picked_up_at" picked_up job in
    if is_set (Dict.get "picked_up_at" payload) then marked else job

-- `branches.remove(task_id)` where it is there
unfoldable pub remove_first : String → List String → List String
remove_first s [] = []
remove_first s (x ∷ xs) = if str_eq x s then xs else x ∷ remove_first s xs

abbrev is_empty : List String → Bool
is_empty [] = true
is_empty (_ ∷ _) = false

-- The last branch makes the job go on in the state that aggregates the results, which every job with
-- branches names; without it the code would raise.
abbrev pub settle_branches : List String → Job → Job
settle_branches branches job =
    let job' = Dict.put "active_branches" (arr (from_texts branches)) job in
    if is_empty branches
    then Dict.put "current_state" (value_or_null (Dict.get "aggregation_target" job'))
        (Dict.put "status" (state running) job')
    else job'

unfoldable pub with_branch_result : String → Job → Job → Job
with_branch_result task_id payload job =
    let job' = merge_entry "aggregation_results" ((task_id, obj (from_dict payload)) ∷ []) job in
    merge_nonempty "metadata" (dict_of (Dict.get "metadata" payload))
      (copy_set "security" payload job')

unfoldable pub update_parallel_results : String → Job → Job → Job
update_parallel_results task_id payload job =
    let job' = with_branch_result task_id payload job in
    settle_branches (remove_first task_id (texts_of (Dict.get "active_branches" job'))) job'

-- The result of one of the parallel branches.
unfoldable pub accept_branch : String → String → Job → Memory → Memory
accept_branch job_id task_id payload m =
    let (job', m') =
      update_job_state_atomic job_id (update_parallel_results task_id payload)
        (remove_job_from_watch (watch_key true job_id task_id) m) in
    if is_empty (texts_of (Dict.get "active_branches" job')) then enqueue_job job_id m' else m'

-- `a in s`, for texts
unfoldable pub contains : String → String → Bool
unfolding strip_prefix
contains a String.[] = str_eq a ""
contains a (String.◌∷◌ c s) =
    let rest = contains a s in
    elim (strip_prefix a (String.◌∷◌ c s)) [ none ↦ rest | some _ ↦ true ]

-- `skill_data.get("name") == task_type`
abbrev same_text : Option String → Option String → Bool
same_text none none = true
same_text (some s) (some t) = str_eq s t
same_text _ _ = false

abbrev skill_named : Option String → List Skill → Option Skill
skill_named task_type [] = none
skill_named task_type (skill ∷ skills) =
    if same_text skill.name task_type then some skill else skill_named task_type skills

-- The skill of the worker that the job's task asks for.
unfoldable pub skill_snapshot : String → Job → Memory → Option Skill
skill_snapshot worker_id job m =
    if str_eq worker_id "" then none else elim (get_worker_info worker_id m) [
      | none ↦ none
      | some info ↦
          skill_named (text_of (Dict.get "type" (dict_of (Dict.get "current_task_info" job))))
            info.supported_skills
    ]

abbrev text_or_null : Option String → Value
text_or_null none = null
text_or_null (some s) = text s

abbrev skill_value : Option Skill → Value
skill_value none = null
skill_value (some skill) = obj (
    from_dict (
      ("name", text_or_null skill.name)
      ∷ ("type", text_or_null skill.kind)
      ∷ ("version", skill.version)
      ∷ ("input_schema", skill.input_schema)
      ∷ ("output_schema", skill.output_schema)
      ∷ []))

-- A result without a worker is the sender's.
abbrev pub with_sender : String → Job → Job
with_sender worker_id payload = elim (Dict.get "worker_id" payload) [
  | some (text s) ↦ payload
  | _ ↦ Dict.put "worker_id" (text worker_id) payload
]

-- `if authenticated_worker_id != "ghost"`: the load counter goes down.
abbrev pub unload : String → World → World
unload worker_id w =
    if str_eq worker_id "ghost" then w else in_memory (decrement_worker_load worker_id) w

-- A job waits for one task, whose identifier the result must have; one with branches takes any.
unfoldable pub is_stale : String → Job → Bool
is_stale task_id job =
    let current = Dict.get "current_task_id" job in
    not (awaits_branches job) && (is_set current && not (str_eq (text_or_empty current) task_id))

-- The history's event of a finished task. A duration below 0 is 0 here.
unfoldable pub log_finished : Clock → String → String → Job → Option Skill → Job → World → World
log_finished clock worker_id task_id payload snapshot job w =
    let dispatched_at = num_or clock.mono (Dict.get "task_dispatched_at" job) in
    let context =
      Dict.put "skill_snapshot" (skill_value snapshot)
        (Dict.put "result" (obj (from_dict payload)) job) in
    log_job_event "task_finished" (current_state_of job)
      (("duration_ms", num (clock.mono - dispatched_at))
        ∷ ("worker_id", text worker_id)
        ∷ ("origin_task_id", text task_id)
        ∷ ("timestamp", value_or_null (Dict.get "timestamp" payload))
        ∷ ("context_snapshot", obj (from_dict context))
        ∷ [])
      job w

module _ (rxon : Rxon) (python : Python) (settings : Settings) (config : Config)
    (dispatch : Job → Job → World → Step) where
  -- The message of a violated output schema, for a result that reports success.
  unfoldable pub violation_of : Job → Option Skill → Option String
  violation_of payload none = none
  violation_of payload (some skill) =
      if str_eq (text_or_empty (Dict.get "status" payload)) rxon.task_success
        && (str_eq skill.schema_dialect "json-schema" && is_set (some skill.output_schema))
      then rxon.validate_data (value_or_null (Dict.get "data" payload)) skill.output_schema
      else none

  -- A result that violates the schema becomes a failure, and its worker is rated down.
  abbrev judged : String → Option String → Job → World → Job × World
  judged worker_id none payload w = (payload, w)
  judged worker_id (some error_msg) payload w =
      let full_error : Value =
        text
          (str_append "Contract violation: result data does not match output_schema. " error_msg) in
      let error : Value =
        obj (
          from_dict (("code", text rxon.code_contract_violation) ∷ ("message", full_error) ∷ [])) in
      (
        Dict.put "error" error (Dict.put "status" (text rxon.task_failure) payload),
        in_memory (rate_worker worker_id (penalise settings.penalty_contract_violation)) w,
      )

  abbrev reason_of : Job → Reason
  reason_of job =
      if contains "timeout" (python.lower (text_or_empty (Dict.get "error_message" job)))
      then late
      else elim (status_of (Dict.get "status" job)) [
        | some cancelled ↦ was_cancelled
        | _ ↦ already_terminated
      ]

  -- The job's only task.
  unfoldable pub accept_single :
      Clock → String → String → Job → Option Skill → Job → World → Answer × World
  accept_single clock worker_id task_id payload snapshot job w =
      finish_task settings rxon config dispatch clock worker_id
        (text_or_empty (Dict.get "status" payload)) task_id payload job
        (log_finished clock worker_id task_id payload snapshot job
          (in_memory (remove_job_from_watch (text_or_empty (Dict.get "job_id" payload))) w))

  -- A result whose sender owns the task.
  unfoldable pub accept_result :
      Clock → String → String → Job → Option Skill → Job → World → Answer × World
  accept_result clock worker_id task_id payload snapshot job w =
      let job_id = text_or_empty (Dict.get "job_id" payload) in
      let single = accept_single clock worker_id task_id payload snapshot job w in
      if is_stale task_id job
      then (ignored stale, w)
      else if is_terminal (status_of (Dict.get "status" job))
      then (ignored (reason_of job), w)
      else if awaits_branches job
      then (accepted "parallel_branch_accepted", in_memory (accept_branch job_id task_id payload) w)
      else single

  -- The job that the store holds under the result's id. The store returns its own dict, so the time
  -- that is written in it before the other checks stays in the store, whatever they say.
  unfoldable pub process_found : Clock → String → Job → Option Job → World → Answer × World
  process_found clock worker_id payload none w = (ignored not_found, w)
  process_found clock worker_id payload (some []) w = (ignored not_found, w)
  process_found clock worker_id payload (some (e ∷ rest)) w =
      let job = e ∷ rest in
      let task_id = text_or_empty (Dict.get "task_id" payload) in
      let snapshot = skill_snapshot worker_id job w.memory in
      let (payload', w') = judged worker_id (violation_of payload snapshot) payload w in
      let job' = with_picked_up task_id payload' job in
      let job_id = text_or_empty (Dict.get "job_id" payload) in
      if verify_job_ownership_robust task_id worker_id job
      then accept_result clock worker_id task_id payload' snapshot job'
          (in_memory (save_job_state job_id job') w')
      else (ignored mismatch, w')

  unfoldable pub process_valid : Clock → String → Job → World → Answer × World
  process_valid clock worker_id payload w =
      if str_eq (text_or_empty (Dict.get "worker_id" payload)) worker_id
      then process_found clock worker_id payload
          (get_job_state (text_or_empty (Dict.get "job_id" payload)) w.memory) w
      else (refused (permission_error "Forbidden: cannot submit results for another worker"), w)

  abbrev pub process_parsed : Clock → String → Option Job → World → Answer × World
  process_parsed clock worker_id none w = (refused (value_error "Invalid TaskResult payload"), w)
  process_parsed clock worker_id (some result) w =
      process_valid clock worker_id (with_sender worker_id result) w

  abbrev pub process_checked : Clock → Job → String → Option Refusal → World → Answer × World
  process_checked clock payload worker_id (some refusal) w = (refused refusal, w)
  process_checked clock payload worker_id none w =
      process_parsed clock worker_id (rxon.task_result payload) (unload worker_id w)

  unfoldable pub process_task_result : Clock → Job → String → World → Answer × World
  process_task_result clock payload worker_id w =
      process_checked clock payload worker_id
        (verify_zero_trust rxon python settings (clock.wall / 1000) payload worker_id [] w.memory) w
