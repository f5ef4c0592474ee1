-- ===== src/WorkerService.antt =====
-- services/worker_service.py: `WorkerService`, what it takes from rxon and from its settings, and the
-- check of a message's sender. Times of messages are whole seconds.
pub mod Trust
pub mod Results
pub mod Branches
pub mod Aggregation
pub mod Outcomes
pub mod Pickup
pub mod TokenService
pub mod Enrolment
pub mod Events
use Prim.Native.String.{◌++◌ as str_append}
use avtomatika.Prelude.{
  ℕ, ◌+◌, ◌-◌, ◌/◌, String, Bool, true, false, not, ◌&&◌, Option, none, some, List, [], ◌∷◌, str_eq,
  ltb, if◌then◌else◌,
}
use avtomatika.Dict
use avtomatika.Value.{Value, null, Job, truthy}
use avtomatika.Storage.{Memory, Worker}
use avtomatika.Storage.Tokens.{find_worker_token}
use avtomatika.Executor.{value_or_null}
use avtomatika.Executor.Outcomes.{is_set}

-- rxon's `SecurityContext`: the keys that the service reads.
pub record SecurityContext : Type 0 where
  pub signature : Option String
  pub signer_id : Option String

-- rxon's `WorkerEventPayload`
pub record WorkerEvent : Type 0 where
  pub event_id : String
  pub event_type : String
  pub worker_id : String
  pub origin_worker_id : String
  pub target_job_id : Option String
  pub target_task_id : Option String
  pub payload : Job
  pub bubbling_chain : List String
  pub security : Value
  pub metadata : Value
  pub timestamp : Option ℕ

-- What the service takes from the package rxon, and from Python and its libraries. `from_dict` of a
-- model gives the values of its keys, or raises, which is `none`.
pub record Rxon : Type 0 where
  pub security_context : Value → Option SecurityContext
  pub verify_signature : Job → String → String → List String → Bool
  pub task_result : Job → Option Job
  pub worker_registration : Job → Option Worker
  pub worker_event : Job → Option WorkerEvent
  pub is_identifier : String → Bool
  pub validate_data : Value → Value → Option String
  pub task_success : String
  pub task_failure : String
  pub task_cancelled : String
  pub code_permanent : String
  pub code_security : String
  pub code_dependency : String
  pub code_contract_violation : String
  pub code_invalid_input : String
  pub code_integrity_mismatch : String
  pub code_transient : String
  pub event_progress : String

-- Python's `int`, `fnmatch` and `lower`, and `decrypt_token`, which calls the package cryptography.
pub record Python : Type 0 where
  pub int : Value → Option ℕ
  pub fnmatch : String → String → Bool
  pub lower : String → String
  pub decrypt : String → Option String

-- The settings that the service reads. A reputation is in units of 1/10000, as in the store.
pub record Settings : Type 0 where
  pub decrypts_tokens : Bool
  pub global_worker_token : String
  pub health_check_interval : ℕ
  pub worker_timeout : ℕ
  pub reward_success : ℕ
  pub penalty_task_failure : ℕ
  pub penalty_contract_violation : ℕ

-- The exceptions that a request may end with.
pub data Refusal : Type 0 where
  permission_error : String → Refusal
  value_error : String → Refusal

abbrev pub distance : ℕ → ℕ → ℕ
distance m n = (m - n) + (n - m)

-- `security.signer_id and security.signer_id != worker_id`
abbrev signed_by_other : Option String → String → Bool
signed_by_other none worker_id = false
signed_by_other (some signer_id) worker_id =
    not (str_eq signer_id "") && not (str_eq signer_id worker_id)

-- `None` and the empty text are false.
abbrev pub nonempty_text : Option String → Option String
nonempty_text none = none
nonempty_text (some s) = if str_eq s "" then none else some s

-- `REDIS_ENCRYPTION_KEY and encrypt_worker_tokens` is the setting `decrypts_tokens`.
module _ (rxon : Rxon) (python : Python) (settings : Settings) where
  abbrev or_global : Option String → String
  or_global none = settings.global_worker_token
  or_global (some s) = s

  -- The secret of the worker, and the empty text if it has none; `none` where it does not decrypt.
  abbrev secret_from : Option String → Option String
  secret_from none = some settings.global_worker_token
  secret_from (some s) =
      if settings.decrypts_tokens
      then elim (python.decrypt s) [
        | none ↦ none
        | some plain ↦ some (or_global (nonempty_text (some plain)))
      ]
      else some s

  unfoldable pub secret_of : String → Memory → Option String
  secret_of worker_id m = secret_from (nonempty_text (find_worker_token python.fnmatch worker_id m))

  -- The signature of a message; a worker without a secret need not sign.
  unfoldable pub check_context :
      Job → String → String → List String → SecurityContext → Option Refusal
  check_context payload worker_id secret ignore_fields security =
      elim (nonempty_text security.signature) [
        | none ↦
            if str_eq secret ""
            then none
            else some (permission_error "Missing required cryptographic signature")
        | some signature ↦
            if signed_by_other security.signer_id worker_id
            then some (permission_error "Message signer ID does not match worker ID")
            else if not (str_eq secret "")
                && not (rxon.verify_signature payload signature secret ignore_fields)
            then some (permission_error "Invalid cryptographic signature")
            else none
      ]

  unfoldable pub check_security : Job → String → List String → String → Option Refusal
  unfolding check_context
  check_security payload worker_id ignore_fields secret =
      if is_set (Dict.get "security" payload)
      then elim (rxon.security_context (value_or_null (Dict.get "security" payload))) [
        | none ↦ some (value_error "Invalid security context")
        | some security ↦ check_context payload worker_id secret ignore_fields security
      ]
      else if str_eq secret ""
      then none
      else some (permission_error "Missing required security context")

  -- A message is fresh for sixty seconds, before and after its time.
  unfoldable pub check_timestamp : ℕ → Job → Option Refusal
  check_timestamp now payload =
      if is_set (Dict.get "timestamp" payload)
      then elim (python.int (value_or_null (Dict.get "timestamp" payload))) [
        | none ↦ some (value_error "Invalid timestamp")
        | some msg_timestamp ↦
            if ltb 60 (distance now msg_timestamp)
            then some (permission_error "Message timestamp expired (replay protection)")
            else none
      ]
      else some (permission_error "Missing required timestamp for replay protection")

  -- `none` where the message is trusted; `now` is `int(time())`.
  unfoldable pub verify_zero_trust : ℕ → Job → String → List String → Memory → Option Refusal
  unfolding check_timestamp check_security secret_of
  verify_zero_trust now payload worker_id ignore_fields m =
      if str_eq worker_id "ghost" then none else elim (check_timestamp now payload) [
        | some refusal ↦ some refusal
        | none ↦ elim (secret_of worker_id m) [
          | none ↦ some (permission_error "Unauthorized: Failed to decrypt worker token.")
          | some secret ↦ check_security payload worker_id ignore_fields secret
        ]
      ]
