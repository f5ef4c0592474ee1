-- ===== src/Tests/ServiceTests.antt =====
-- The worker service of services/worker_service.py at concrete inputs.
use avtomatika.Prelude.{
  ℕ, ◌≡◌, ◌≢◌, ◌↔◌, ◌⊎◌, refl, arith, String, true, false, none, some, Option, [], ◌∷◌, ◌++◌,
  eq_iff, str_eq, if◌then◌else◌, ltb,
}
use avtomatika.Prelude.Int.{pos}
use avtomatika.Dict.{get, put}
use avtomatika.Value.{Value, num, text, obj, Job, from_dict, status_of, quarantined}
use avtomatika.Storage.{Worker, empty}
use avtomatika.Storage.Jobs.{get_job_state, save_job_state}
use avtomatika.Storage.Tokens.{find_worker_token}
use avtomatika.Storage.Workers.{after, get_worker_info}
use avtomatika.Executor.{World, in_memory}
use avtomatika.Executor.Process.{is_terminal}
use avtomatika.Orchestrator.{is_branch, watch_key}
use avtomatika.WorkerService.{Rxon, Python, Settings, verify_zero_trust, secret_of}
use avtomatika.WorkerService.Trust.{verify_zero_trust_iff, Fresh, Signed}
use avtomatika.WorkerService.Outcomes.{
  transition, next_state_for, handle_failed_task, accepted, ignored, stale,
}
use avtomatika.WorkerService.Outcomes.Transitions.{transition_lem, GoesOn, Fails}
use avtomatika.WorkerService.Outcomes.Penalties.{handle_failed_task-permanent, RatedDown}
use avtomatika.WorkerService.Results.{
  process_found, with_picked_up, violation_of, skill_snapshot, process_task_result,
  verify_job_ownership_robust, accept_result, is_stale,
}
use avtomatika.WorkerService.Results.Kept.{Kept, entry_at}
use avtomatika.WorkerService.Results.Guards.{process_task_result-Guarded, is_rejected, Submitted}
use avtomatika.WorkerService.Results.Repeats.{accept_result-twice}
use avtomatika.WorkerService.Pickup.{hand_over, execution_deadline}
use avtomatika.WorkerService.Pickup.Ownership.{hand_over-owner}
use avtomatika.WorkerService.TokenService.{issue_access_token, refresh_access_token}
use avtomatika.WorkerService.TokenService.Renewal.{refresh-issue}
use avtomatika.Tests.ExecutorTests.{config, clock, dispatch, accept}
use avtomatika.Tests.EngineTests.{waiting, waiting_world}

abbrev pub nobody : Worker
nobody = record {
  worker_id = "w";
  status = none;
  supported_skills = [];
  hot_skills = [];
  reputation = some 9000;
  internal_load = some (pos 1);
  cost_per_skill = [];
  websockets = false;
  skills_hash = none;
  resources = text "";
  installed_artifacts = [];
  installed_software = [];
  extra = [];
}

-- Signatures are the secrets themselves, and all payloads are valid.
abbrev pub rxon : Rxon
rxon = record {
  security_context = λ v. some (record { signature = some "secret"; signer_id = some "w" });
  verify_signature = λ payload signature secret ignored. str_eq signature secret;
  task_result = λ payload. some payload;
  worker_registration = λ payload. some nobody;
  worker_event = λ payload. none;
  is_identifier = λ name. true;
  validate_data = accept;
  task_success = "success";
  task_failure = "failure";
  task_cancelled = "cancelled";
  code_permanent = "PERMANENT";
  code_security = "SECURITY";
  code_dependency = "DEPENDENCY";
  code_contract_violation = "CONTRACT";
  code_invalid_input = "INPUT";
  code_integrity_mismatch = "INTEGRITY";
  code_transient = "TRANSIENT";
  event_progress = "progress";
}

abbrev int : Value → Option ℕ
int (num n) = some n
int _ = none

abbrev pub python : Python
python = record { int = int; fnmatch = str_eq; lower = λ s. s; decrypt = λ s. some s }

abbrev pub settings : Settings
settings = record {
  decrypts_tokens = false;
  global_worker_token = "secret";
  health_check_interval = 60;
  worker_timeout = 300;
  reward_success = 10;
  penalty_task_failure = 500;
  penalty_contract_violation = 2000;
}

-- The result of the task "t", sent by "w" in the first second.
abbrev result : Job
result =
    ("job_id", text "c")
    ∷ ("task_id", text "t")
    ∷ ("worker_id", text "w")
    ∷ ("status", text "success")
    ∷ ("timestamp", num 1)
    ∷ ("security", obj (from_dict (("signature", text "secret") ∷ [])))
    ∷ []

abbrev known_world : World
known_world = in_memory (λ m. record m { workers = ("w", nobody) ∷ [] }) waiting_world

w_not_ghost : ◌≢◌ {A = String} "w" "ghost"
w_not_ghost e = ground (arith, eq_iff "w" "ghost")

w_not_empty : ◌≢◌ {A = String} "w" ""
w_not_empty e = ground (arith, eq_iff "w" "")

c_not_empty : ◌≢◌ {A = String} "c" ""
c_not_empty e = ground (arith, eq_iff "c" "")

secret_not_empty : ◌≢◌ {A = String} "secret" ""
secret_not_empty e = ground (arith, eq_iff "secret" "")

verify_zero_trust_iff_example :
    (verify_zero_trust rxon python settings 1 result "w" [] empty ≡ none)
    ↔ Fresh rxon python settings 1 result × Signed rxon python settings result "w" "secret" []
unfolding secret_of find_worker_token get
verify_zero_trust_iff_example =
    verify_zero_trust_iff rxon python settings 1 result "w" "secret" [] empty w_not_ghost refl
      secret_not_empty

process_task_result-Guarded_example :
    let (answer, w') =
      process_task_result rxon python settings config dispatch clock result "w" known_world in
    ((is_rejected answer ≡ true) × Kept known_world w')
    ⊎ ((is_rejected answer ≡ false)
        × ((verify_zero_trust rxon python settings 1 result "w" [] known_world.memory ≡ none)
            × Submitted rxon python settings config dispatch "w" (some result) known_world))
process_task_result-Guarded_example =
    process_task_result-Guarded rxon python settings config dispatch clock result "w" known_world

-- A stale result, of a task that the job no longer has.
abbrev late_result : Job
late_result = ("job_id", text "c") ∷ ("task_id", text "old") ∷ ("picked_up_at", num 99) ∷ []

-- It is ignored, and marks the present task of the job as picked up.
late_result_marks :
    let (answer, w') =
      process_found rxon python settings config dispatch clock "w" late_result
        (some waiting)
        waiting_world in
    (answer ≡ ignored stale)
    × (entry_at "c" "task_picked_up_at" waiting_world.memory.jobs ≡ some (num 7))
    × (entry_at "c" "task_picked_up_at" w'.memory.jobs ≡ some (num 99))
unfolding process_found accept_result is_stale verify_job_ownership_robust with_picked_up
    violation_of skill_snapshot get_worker_info save_job_state get put
late_result_marks = (refl, refl, refl)

transition_lem_example :
    let w' = (transition settings "w" "success" "c" result waiting known_world).1 in
    ((next_state : String) × (next_state_for "success" waiting ≡ some next_state)
      × GoesOn next_state "c" known_world.memory w')
    ⊎ ((next_state_for "success" waiting ≡ none) × Fails "c" known_world.memory w')
transition_lem_example = transition_lem settings "w" "success" "c" result waiting known_world

handle_failed_task-permanent_example :
    let (answer, w') =
      handle_failed_task settings rxon config dispatch clock "t"
        ("SECURITY", "boom")
        waiting
        known_world in
    (answer ≡ accepted "failure_handled")
    × ((job' : Job) × (get_job_state "c" w'.memory ≡ some job')
        × (status_of (get "status" job') ≡ some quarantined))
    × (w'.memory.quarantine_queue ≡ "c" ∷ [])
    × (w'.memory.job_queue ≡ known_world.memory.job_queue)
    × RatedDown 500 nobody "w" w'.memory
unfolding get get_worker_info
handle_failed_task-permanent_example =
    handle_failed_task-permanent settings rxon config dispatch clock "t" "SECURITY" "boom" waiting
      nobody known_world refl w_not_empty refl

accept_result-twice_example :
    let receive = accept_result rxon python settings config dispatch clock "w" "t" result none in
    let w' = (receive waiting known_world).1 in
    (job' : Job) × (get_job_state "c" w'.memory ≡ some job')
    × (((receive job' w').1).memory.job_queue ≡ known_world.memory.job_queue ++ "c" ∷ ("c" ∷ []))
unfolding get is_stale is_terminal
accept_result-twice_example =
    accept_result-twice rxon python settings config dispatch clock "w" "t" "done" result waiting
      none known_world (refl, refl, refl, refl, refl, refl)

-- The task "t" of the job "c".
abbrev task : Job
task = ("job_id", text "c") ∷ ("task_id", text "t") ∷ []

hand_over-owner_example :
    let m' = (hand_over settings 50 "w" task known_world.memory).1 in
    (job' : Job) × (get_job_state "c" m' ≡ some job')
    × ((who : String) → verify_job_ownership_robust "t" who job' ≡ str_eq "w" who)
    × (get (watch_key (is_branch "t" job') "c" "t") m'.watched_jobs
        ≡ some (execution_deadline settings 50 job'))
unfolding get get_job_state
hand_over-owner_example =
    hand_over-owner settings 50 "w" task waiting known_world.memory w_not_empty c_not_empty refl

abbrev token : ℕ → String
token n = "token"

abbrev hash : String → String
hash s = s

refresh-issue_example :
    let (response, (m', drawn')) = issue_access_token token hash 1000 "w" 0 empty in
    (refresh_access_token token hash 2000 "w" response.refresh_token drawn' m').0 ≡ (
      if ltb (after 1000 86400) 2000
      then none
      else if str_eq "w" "w"
      then some ((issue_access_token token hash 2000 "w" drawn' m').0)
      else none)
refresh-issue_example = refresh-issue token hash 1000 2000 "w" "w" 0 empty w_not_empty tt tt
