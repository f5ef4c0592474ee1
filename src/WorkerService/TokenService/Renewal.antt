-- ===== src/WorkerService/TokenService/Renewal.antt =====
-- services/worker_service.py: which refresh tokens are honoured, for whom and how long.
use avtomatika.Prelude.{
  ℕ, ◌≡◌, ◌≢◌, refl, arith, ◌+◌, String, Bool, true, false, str_ne, none, some, str_eq, ltb,
  if◌then◌else◌,
}
use avtomatika.Dict.Unique.{IsUnique, put-IsUnique}
use avtomatika.Value.{text}
use avtomatika.Storage.{Memory}
use avtomatika.Storage.Workers.{after}
use avtomatika.Storage.Tokens.{
  save_worker_access_token, save_worker_refresh_token, verify_worker_refresh_token,
}
use avtomatika.Storage.Tokens.Lifetime.{refresh_token-saved}
use avtomatika.WorkerService.TokenService.{issue_access_token, refresh_access_token}

module _ (token : ℕ → String) (hash : String → String) where
  refresh_access_token_lem :
      (now : ℕ) (worker_id who refresh_token : String) (expired : Bool) (drawn : ℕ) (m : Memory)
      → worker_id ≢ ""
      → (verify_worker_refresh_token now (hash refresh_token) m).0
        ≡ (if expired then none else some (text worker_id))
      → (refresh_access_token token hash now who refresh_token drawn m).0 ≡ (
          if expired
          then none
          else if str_eq worker_id who
          then some ((issue_access_token token hash now who drawn m).0)
          else none)
  unfolding refresh_access_token issue_access_token
  refresh_access_token_lem now worker_id who refresh_token true drawn m n e =
      rw (e, refresh_access_token) refl
  refresh_access_token_lem now worker_id who refresh_token false drawn m n e =
      rw (e, refresh_access_token) (rw (str_ne worker_id "" n) (ground arith))

  -- Round trip of the token service, in a store with one deadline for a key and for a worker. The
  -- refresh token that is issued to a worker is exchanged for new tokens by this worker, up to and
  -- including the moment of its expiry a day later; it is refused after that, and to any other
  -- worker.
  pub refresh-issue :
      (start now : ℕ) (worker_id who : String) (drawn : ℕ) (m : Memory)
      → worker_id ≢ ""
      → IsUnique m.generic_key_ttls
      → IsUnique m.worker_ttls
      → let (response, (m', drawn')) = issue_access_token token hash start worker_id drawn m in
        (refresh_access_token token hash now who response.refresh_token drawn' m').0 ≡ (
          if ltb (after start 86400) now
          then none
          else if str_eq worker_id who
          then some ((issue_access_token token hash now who drawn' m').0)
          else none)
  unfolding issue_access_token save_worker_access_token
  refresh-issue start now worker_id who drawn m n u v =
      let m₁ = save_worker_access_token start worker_id (hash (token drawn)) 3600 m in
      refresh_access_token_lem now worker_id who (token (drawn + 1)) (ltb (after start 86400) now)
        (drawn + 2) (save_worker_refresh_token start worker_id (hash (token (drawn + 1))) 86400 m₁)
        n
        (refresh_token-saved start worker_id (hash (token (drawn + 1))) 86400 m₁
          (put-IsUnique _ (after start 3600) m.generic_key_ttls u) v now)
