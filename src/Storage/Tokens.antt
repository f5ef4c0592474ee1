-- ===== src/Storage/Tokens.antt =====
-- storage/memory.py: the workers' tokens, and the short-lived tokens of the token service.
pub mod Lifetime
use Prim.Native.String.{◌++◌ as str_append}
use avtomatika.Prelude.{
  ℕ, String, Bool, false, Option, none, some, List, [], ◌∷◌, str_eq, if◌then◌else◌,
}
use avtomatika.Dict
use avtomatika.Dict.{Dict}
use avtomatika.Value.{Value, text}
use avtomatika.Storage.{Memory}
use avtomatika.Storage.Workers.{after, clean_expired}
use avtomatika.Storage.Keys.{strip_prefix}

unfoldable pub set_worker_token : String → String → Memory → Memory
set_worker_token worker_id token m = record m {
  worker_tokens = Dict.put worker_id token m.worker_tokens;
}

unfoldable get_worker_token : String → Memory → Option String
get_worker_token worker_id m = Dict.get worker_id m.worker_tokens

module _ (fnmatch : String → String → Bool) where
  abbrev matches : String → Option String → Bool
  matches worker_id none = false
  matches worker_id (some pattern) = fnmatch worker_id pattern

  -- The token of the first key "pattern:…" whose pattern fits; `fnmatch` is Python's.
  unfoldable first_match : String → Dict String → Option String
  unfolding strip_prefix
  first_match worker_id [] = none
  first_match worker_id ((key, val) ∷ tokens) =
      let rest = first_match worker_id tokens in
      if matches worker_id (strip_prefix "pattern:" key) then some val else rest

  -- An empty token counts as none.
  unfoldable pub find_worker_token : String → Memory → Option String
  unfolding first_match
  find_worker_token worker_id m =
      let pattern = first_match worker_id m.worker_tokens in
      elim (Dict.get worker_id m.worker_tokens) [
        | none ↦ pattern
        | some token ↦ if str_eq token "" then pattern else some token
      ]

-- A key with a value and a deadline.
abbrev pub save_token : ℕ → String → String → ℕ → Memory → Memory
save_token now key worker_id ttl m = record m {
  generic_keys = Dict.put key (text worker_id) m.generic_keys;
  generic_key_ttls = Dict.put key (after now ttl) m.generic_key_ttls;
}

unfoldable pub save_worker_access_token : ℕ → String → String → ℕ → Memory → Memory
save_worker_access_token now worker_id token ttl m =
    save_token now (str_append "sts:" token) worker_id ttl m

unfoldable pub verify_worker_access_token : ℕ → String → Memory → Option Value × Memory
verify_worker_access_token now token m =
    let m' = clean_expired now m in (Dict.get (str_append "sts:" token) m'.generic_keys, m')

unfoldable pub save_worker_refresh_token : ℕ → String → String → ℕ → Memory → Memory
save_worker_refresh_token now worker_id token ttl m =
    save_token now (str_append "sts:refresh:" token) worker_id ttl m

unfoldable pub verify_worker_refresh_token : ℕ → String → Memory → Option Value × Memory
verify_worker_refresh_token now token m =
    let m' = clean_expired now m in (Dict.get (str_append "sts:refresh:" token) m'.generic_keys, m')
