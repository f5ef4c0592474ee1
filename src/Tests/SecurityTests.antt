-- ===== src/Tests/SecurityTests.antt =====
-- security.py at concrete inputs.
use avtomatika.Prelude.{◌≡◌, refl, true, false, none, [], ◌∷◌, str_eq}
use avtomatika.Dict.{get, pop_all, keys_where}
use avtomatika.Storage.{Memory, empty}
use avtomatika.Storage.Workers.{clean_expired}
use avtomatika.Storage.Tokens.{verify_worker_access_token, find_worker_token}
use avtomatika.Security.{AuthConfig, agrees, check_individual, verify_worker_auth}
use avtomatika.Security.Credentials.{Credential, verify_worker_auth-Credential}

-- A token's hash is the token, and no token is encrypted.
abbrev mixed : AuthConfig
mixed = record {
  worker_auth_mode = "mixed";
  global_worker_token = "shared";
  encrypts = false;
  sha256 = λ token. token;
  decrypt_token = λ token. none;
  fnmatch = str_eq;
}

abbrev known : Memory
known = record empty { worker_tokens = ("w", "own") ∷ [] }

verify_worker_auth-Credential_example :
    (agrees "w" "w" ≡ true) × Credential mixed 5 "own" "" "w" known "w"
unfolding verify_worker_auth verify_worker_access_token find_worker_token clean_expired get pop_all
    keys_where check_individual
verify_worker_auth-Credential_example =
    verify_worker_auth-Credential mixed 5 "own" "" "w" known "w" "own" refl
