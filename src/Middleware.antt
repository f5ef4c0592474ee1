-- ===== src/Middleware.antt =====
-- ratelimit.py and quota.py: the middlewares in front of the API. A request reaches its handler, or
-- is answered with an error's HTTP status.
pub mod Admission
use Prim.Native.String.{◌++◌ as str_append}
use avtomatika.Prelude.{
  ℕ, String, Bool, true, false, Option, none, some, str_eq, ltb, if◌then◌else◌,
}
use avtomatika.Dict
use avtomatika.Value.{Job, text_of}
use avtomatika.Storage.{Memory}
use avtomatika.Storage.Keys.{increment_key_with_ttl}
use avtomatika.Storage.Quotas.{check_and_decrement_quota}

pub data Answer : Type 0 where
  passed : Answer
  refused : ℕ → Answer

-- `request.remote or "unknown"`
abbrev identifier_of : Option String → String
identifier_of none = "unknown"
identifier_of (some remote) = if str_eq remote "" then "unknown" else remote

-- `f"ratelimit:client:{key_identifier}:{request.path}"`
abbrev pub rate_limit_key : Option String → String → String
rate_limit_key remote path =
    str_append "ratelimit:client:" (str_append (identifier_of remote) (str_append ":" path))

-- The answer by the count of the requests in the period. A counter that cannot be read, as it is no
-- number, lets the request pass: the exception is suppressed.
abbrev pub answer_of : ℕ → Option ℕ → Answer
answer_of default_limit none = passed
answer_of default_limit (some count) = if ltb default_limit count then refused 429 else passed

-- `is_internal` is `request.path.startswith("/_worker")`.
unfoldable pub rate_limit_middleware :
    ℕ → ℕ → ℕ → Bool → Option String → String → Memory → Answer × Memory
rate_limit_middleware default_limit period now is_internal remote path m =
    let (count, m') = increment_key_with_ttl now (rate_limit_key remote path) period m in
    if is_internal then (passed, m) else (answer_of default_limit count, m')

-- `client_config.get("token")`, `none` where it is missing or empty
abbrev pub token_of : Option Job → Option String
token_of none = none
token_of (some client_config) = elim (text_of (Dict.get "token" client_config)) [
  | none ↦ none
  | some token ↦ if str_eq token "" then none else some token
]

unfoldable pub quota_middleware : Option Job → Memory → Answer × Memory
quota_middleware client_config m = elim (token_of client_config) [
  | none ↦ (refused 500, m)
  | some token ↦
      let (is_ok, m') = check_and_decrement_quota token m in
      (if is_ok then passed else refused 429, m')
]
