-- ===== src/WorkerService/TokenService.antt =====
-- services/worker_service.py: the short-lived tokens of the workers.
pub mod Renewal
use avtomatika.Prelude.{ℕ, ◌+◌, String, Bool, Option, none, some, str_eq, if◌then◌else◌}
use avtomatika.Value.{Value, text, text_of}
use avtomatika.Storage.{Memory}
use avtomatika.Storage.Tokens.{
  save_worker_access_token, save_worker_refresh_token, verify_worker_refresh_token,
}
use avtomatika.WorkerService.{Refusal, permission_error, nonempty_text}

-- rxon's `TokenResponse`
pub record TokenResponse : Type 0 where
  pub access_token : String
  pub refresh_token : String
  pub expires_in : ℕ
  pub worker_id : String

-- `token` gives the texts that `token_urlsafe` draws, and `hash` is the digest `sha256`. The
-- result's last part counts the texts that were drawn.
module _ (token : ℕ → String) (hash : String → String) where
  unfoldable pub issue_access_token : ℕ → String → ℕ → Memory → TokenResponse × (Memory × ℕ)
  issue_access_token now worker_id drawn m =
      let access_token = token drawn in
      let refresh_token = token (drawn + 1) in
      (
        record {
          access_token = access_token;
          refresh_token = refresh_token;
          expires_in = 3600;
          worker_id = worker_id;
        },
        (
          save_worker_refresh_token now worker_id (hash refresh_token) 86400
              (save_worker_access_token now worker_id (hash access_token) 3600 m),
          drawn + 2,
        ),
      )

  -- The worker whose token is stored, if one is.
  abbrev renew_for : ℕ → Option String → String → ℕ → Memory → Option TokenResponse × (Memory × ℕ)
  renew_for now none worker_id drawn m = (none, (m, drawn))
  renew_for now (some stored_worker_id) worker_id drawn m =
      let (response, issued) = issue_access_token now worker_id drawn m in
      if str_eq stored_worker_id worker_id then (some response, issued) else (none, (m, drawn))

  -- `none` is the 403 of a refresh token that is unknown or another worker's.
  unfoldable pub refresh_access_token :
      ℕ → String → String → ℕ → Memory → Option TokenResponse × (Memory × ℕ)
  refresh_access_token now worker_id refresh_token drawn m =
      let (stored, m') = verify_worker_refresh_token now (hash refresh_token) m in
      renew_for now (nonempty_text (text_of stored)) worker_id drawn m'
