-- ===== src/Security.antt =====
-- security.py: `verify_worker_auth`, and the middleware that authenticates clients. An empty text stands
-- for a token, an identity or a hint that is missing; the code asks of them only whether they are
-- true. `token_hash_cache` holds what `sha256` gave for the same token. A worker that is looked up is
-- named by the text that the store holds.
pub mod Credentials
use avtomatika.Prelude.{
  ℕ, String, Bool, true, false, not, ◌&&◌, Option, none, some, List, [], ◌∷◌, str_eq, if◌then◌else◌,
}
use avtomatika.Dict
use avtomatika.Value.{Value, Job}
use avtomatika.Storage.{Memory}
use avtomatika.Storage.Tokens.{verify_worker_access_token, find_worker_token}
use avtomatika.Storage.Quotas.{get_client_config}
use avtomatika.Executor.{text_or_empty}

-- The settings, with `sha256`, Python's `fnmatch`, and `decrypt_token` with the key of the configuration. `encrypts` says
-- that this key is set and that the tokens of workers are encrypted.
pub record AuthConfig : Type 0 where
  pub worker_auth_mode : String
  pub global_worker_token : String
  pub encrypts : Bool
  pub sha256 : String → String
  pub decrypt_token : String → Option String
  pub fnmatch : String → String → Bool

-- What the check answers: the worker with the hash of its credential, or the reason of the refusal.
pub data Auth : Type 0 where
  granted : String → String → Auth
  refused : String → Auth

abbrev pub is_empty : String → Bool
is_empty s = str_eq s ""

-- A hint that is there names the worker.
abbrev pub agrees : String → String → Bool
agrees hint worker_id = if is_empty hint then true else str_eq worker_id hint

module _ (config : AuthConfig) where
  unfoldable pub check_certificate : String → String → Auth
  check_certificate cert_identity hint =
      if agrees hint cert_identity
      then granted cert_identity cert_identity
      else refused "Certificate CN does not match worker_id"

  abbrev missing_credentials : String
  missing_credentials =
      if str_eq config.worker_auth_mode "mtls-only"
      then "Client certificate required."
      else if str_eq config.worker_auth_mode "token-only"
      then "Missing header."
      else "Missing header or client certificate."

  -- `config.GLOBAL_WORKER_TOKEN and token == config.GLOBAL_WORKER_TOKEN`
  abbrev is_global : String → Bool
  is_global token =
      not (is_empty config.global_worker_token) && str_eq token config.global_worker_token

  abbrev pub compare_token : String → String → String → Auth
  compare_token token hint expected =
      if str_eq token expected
      then granted hint (config.sha256 token)
      else refused "Invalid individual worker token"

  abbrev pub check_decrypted : String → String → Option String → Auth
  check_decrypted token hint none = refused "Failed to decrypt worker token."
  check_decrypted token hint (some expected) = compare_token token hint expected

  -- The worker's own token.
  unfoldable pub check_individual : String → String → String → Auth
  check_individual token hint expected =
      if config.encrypts
      then check_decrypted token hint (config.decrypt_token expected)
      else compare_token token hint expected

  abbrev pub check_global : String → String → String → Auth
  check_global token worker_id reason =
      if is_global token then granted worker_id (config.sha256 token) else refused reason

  abbrev pub check_expected : String → String → Option String → Auth
  check_expected token hint none = check_global token hint "No valid token found"
  check_expected token hint (some expected) =
      if is_empty expected
      then check_global token hint "No valid token found"
      else check_individual token hint expected

  -- A token that is no access token.
  unfoldable pub check_static : String → String → Memory → Auth
  check_static token hint m =
      if str_eq config.worker_auth_mode "mtls-only"
      then refused "Invalid authentication method."
      else if is_empty hint
      then check_global token "unknown_authenticated_by_global_token"
          "Invalid token or missing worker_id hint"
      else check_expected token hint (find_worker_token config.fnmatch hint m)

  -- `token_worker_id` is the worker whose access token it is, if it is one.
  unfoldable pub check_token : String → String → String → Memory → Auth
  unfolding check_static
  check_token token hint token_worker_id m =
      if is_empty token_worker_id
      then check_static token hint m
      else if agrees hint token_worker_id
      then granted token_worker_id (config.sha256 token)
      else refused "Access Token belongs to another worker"

  unfoldable pub verify_worker_auth : ℕ → String → String → String → Memory → Auth × Memory
  unfolding check_token
  verify_worker_auth now token cert_identity hint m =
      let (found, m') = verify_worker_access_token now (config.sha256 token) m in
      if not (str_eq config.worker_auth_mode "token-only") && not (is_empty cert_identity)
      then (check_certificate cert_identity hint, m)
      else if is_empty token
      then (refused missing_credentials, m)
      else (check_token token hint (text_or_empty found) m', m')

-- The client's configuration, with which the request goes on; `none` stands for the answer 401.
unfoldable client_auth_middleware : String → Memory → Option Job
client_auth_middleware token m = if is_empty token then none else elim (get_client_config token m) [
  | none ↦ none
  | some [] ↦ none
  | some (e ∷ client) ↦ some (e ∷ client)
]
