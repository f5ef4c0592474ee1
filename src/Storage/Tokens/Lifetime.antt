-- ===== src/Storage/Tokens/Lifetime.antt =====
-- storage/memory.py: how long an access token and a refresh token are honoured.
use Prim.Native.String.{◌++◌ as str_append}
use package.text.Mathlib.TextLemmas.{append_cancel_left}
use avtomatika.Prelude.{
  ℕ, ◌≡◌, ◌≢◌, String, false, Option, none, some, arith, ltb, str_eq, str_ne, eq_refl,
  if◌then◌else◌,
}
use avtomatika.Dict
use avtomatika.Dict.{get-put}
use avtomatika.Dict.Unique.{IsUnique, put-IsUnique}
use avtomatika.Value.{Value, text}
use avtomatika.Storage.{Memory}
use avtomatika.Storage.Workers.{after, clean_expired}
use avtomatika.Storage.Workers.Expiry.{live_value, clean_value}
use avtomatika.Storage.Tokens.{
  save_worker_access_token, verify_worker_access_token, save_worker_refresh_token,
  verify_worker_refresh_token, save_token,
}

module _ (start : ℕ) (worker_id token : String) (ttl : ℕ) (m : Memory)
    (u : IsUnique m.generic_key_ttls) (w : IsUnique m.worker_ttls) (now : ℕ) where
  saved_value :
      (key other : String)
      → live_value now other (save_token start key worker_id ttl m) ≡ (
          if str_eq key other
          then (if ltb (after start ttl) now then none else some (text worker_id))
          else live_value now other m)
  unfolding live_value
  saved_value key other = ground (
    arith,
    get-put key other (text worker_id) m.generic_keys,
    get-put key other (after start ttl) m.generic_key_ttls,
  )

  saved_IsUnique : (key : String) → IsUnique (save_token start key worker_id ttl m).generic_key_ttls
  saved_IsUnique key = put-IsUnique key (after start ttl) m.generic_key_ttls u

  -- What a reader at `now` finds under a key after a token was saved under another or the same.
  read_saved :
      (key other : String)
      → Dict.get other (clean_expired now (save_token start key worker_id ttl m)).generic_keys ≡ (
          if str_eq key other
          then (if ltb (after start ttl) now then none else some (text worker_id))
          else Dict.get other (clean_expired now m).generic_keys)
  read_saved key other =
      rw
        (
          clean_value now (save_token start key worker_id ttl m) (saved_IsUnique key) w other,
          clean_value now m u w other,
        )
        (saved_value key other)

  -- The same of a refresh token, by the methods that save and verify one.
  pub refresh_token-saved :
      (verify_worker_refresh_token now token
        (save_worker_refresh_token start worker_id token ttl m)).0
      ≡ (if ltb (after start ttl) now then none else some (text worker_id))
  unfolding verify_worker_refresh_token save_worker_refresh_token
  refresh_token-saved =
      let key = str_append "sts:refresh:" token in ground (arith, read_saved key key, eq_refl key)

  abbrev Lifetime : (String → Memory → Option Value) → String → Memory → Type 0
  Lifetime verify other m' =
      (verify token m' ≡ (if ltb (after start ttl) now then none else some (text worker_id)))
      × (verify other m' ≡ verify other m)

  -- A token that was saved at `start` for `ttl` seconds is verified to its worker at any time up to
  -- the moment of its expiry, and to nothing later; and what another token is verified to is not
  -- changed by it. So for access tokens and for refresh tokens, in a store with one deadline for a
  -- key and for a worker.
  pub token-Lifetime :
      (other : String)
      → token ≢ other
      → Lifetime
          (λ t m'. (verify_worker_access_token now t m').0)
          other
          (save_worker_access_token start worker_id token ttl m)
        × Lifetime
            (λ t m'. (verify_worker_refresh_token now t m').0)
            other
            (save_worker_refresh_token start worker_id token ttl m)
  unfolding save_worker_access_token verify_worker_access_token save_worker_refresh_token
      verify_worker_refresh_token
  token-Lifetime other ne = (lifetime "sts:", lifetime "sts:refresh:")
    where
      differ :
          (prefix : String) → str_eq (str_append prefix token) (str_append prefix other) ≡ false
      differ prefix = str_ne _ _ (λ e. ne (append_cancel_left prefix token other e))

      lifetime :
          (prefix : String)
          → Lifetime
              (λ t m'. Dict.get (str_append prefix t) (clean_expired now m').generic_keys)
              other
              (save_token start (str_append prefix token) worker_id ttl m)
      lifetime prefix =
          let key = str_append prefix token in
          (
            ground (arith, read_saved key key, eq_refl key),
            ground (arith, read_saved key (str_append prefix other), differ prefix),
          )
