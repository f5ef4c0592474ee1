-- ===== src/Storage/Locks.antt =====
-- storage/memory.py: locks that expire, each with its holder.
pub mod Exclusion
use avtomatika.Prelude.{
  ℕ, String, Bool, true, false, Option, none, some, str_eq, ltb, if◌then◌else◌,
}
use avtomatika.Dict
use avtomatika.Storage.{Memory}
use avtomatika.Storage.Workers.{after}

-- A lock that is there and not past its expiry.
abbrev is_held : ℕ → Option (String × ℕ) → Bool
is_held now none = false
is_held now (some (owner, expiry)) = ltb now expiry

unfoldable pub acquire_lock : ℕ → String → String → ℕ → Memory → Bool × Memory
acquire_lock now key holder_id ttl m =
    if is_held now (Dict.get key m.locks)
    then (false, m)
    else (true, record m { locks = Dict.put key (holder_id, after now ttl) m.locks })

abbrev is_owner : String → Option (String × ℕ) → Bool
is_owner holder_id none = false
is_owner holder_id (some (owner, expiry)) = str_eq owner holder_id

unfoldable pub release_lock : String → String → Memory → Bool × Memory
release_lock key holder_id m =
    if is_owner holder_id (Dict.get key m.locks)
    then (true, record m { locks = Dict.pop key m.locks })
    else (false, m)
