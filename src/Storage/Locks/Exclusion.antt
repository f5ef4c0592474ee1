-- ===== src/Storage/Locks/Exclusion.antt =====
-- storage/memory.py: what the locks promise to whoever holds one.
use avtomatika.Prelude.{
  ℕ, ◌<◌, ◌≡◌, ◌≢◌, String, Bool, true, false, some, List, [], ◌∷◌, All, arith, leb, str_eq, eq_iff,
  eq_refl,
}
use avtomatika.Dict
use avtomatika.Dict.{get-put, get-pop}
use avtomatika.Storage.{Memory}
use avtomatika.Storage.Workers.{after}
use avtomatika.Storage.Locks.{acquire_lock, release_lock}

-- A call of the lock methods, by any instance, on any key.
pub data Call : Type 0 where
  acquire : ℕ → String → String → ℕ → Call
  release : String → String → Call

unfoldable pub call : Call → Memory → Bool × Memory
unfolding acquire_lock release_lock
call (acquire now key holder ttl) m = acquire_lock now key holder ttl m
call (release key holder) m = release_lock key holder m

unfoldable pub calls : List Call → Memory → Memory
unfolding call
calls [] m = m
calls (c ∷ cs) m = calls cs (call c m).1

-- Before the expiry, and no release of the key by the owner.
abbrev Leaves : String → String → ℕ → Call → Type 0
Leaves key owner expiry (acquire now k holder ttl) = now < expiry
Leaves key owner expiry (release k holder) = (str_eq k key ≡ true) → str_eq owner holder ≡ false

module _ (key owner : String) (expiry : ℕ) where
  call_keeps :
      (c : Call) (m : Memory)
      → Leaves key owner expiry c
      → Dict.get key m.locks ≡ some (owner, expiry)
      → Dict.get key (call c m).1.locks ≡ some (owner, expiry)
  unfolding call
  call_keeps (acquire now k holder ttl) m l h =
      ground (arith, get-put k key (holder, after now ttl) m.locks, eq_iff k key)
  call_keeps (release k holder) m l h = ground (arith, get-pop k key m.locks, eq_iff k key)

  calls_keep :
      (cs : List Call) (m : Memory)
      → All (Leaves key owner expiry) cs
      → Dict.get key m.locks ≡ some (owner, expiry)
      → Dict.get key (calls cs m).locks ≡ some (owner, expiry)
  unfolding calls
  calls_keep [] m l h = h
  calls_keep (c ∷ cs) m l h = calls_keep cs (call c m).1 l.1 (call_keeps c m l.0 h)

pub acquired :
    (now : ℕ) (key owner : String) (ttl : ℕ) (m : Memory)
    → (acquire_lock now key owner ttl m).0 ≡ true
    → Dict.get key (acquire_lock now key owner ttl m).1.locks ≡ some (owner, after now ttl)
unfolding acquire_lock
acquired now key owner ttl m h =
    ground (arith, get-put key key (owner, after now ttl) m.locks, eq_refl key)

-- Mutual exclusion. Once a holder has acquired a key, then after any calls of the lock methods,
-- on any keys and by anyone, that all come before the lease expires and none of which is the
-- holder's own release of the key: whoever tries to acquire the key before the lease expires is
-- refused and changes nothing, and a release by anybody but the holder is refused and changes
-- nothing.
pub lock_exclusive :
    (start : ℕ) (key owner : String) (ttl : ℕ) (m : Memory) (cs : List Call) (now : ℕ)
    (other : String) (other_ttl : ℕ)
    → (acquire_lock start key owner ttl m).0 ≡ true
    → All (Leaves key owner (after start ttl)) cs
    → now < after start ttl
    → other ≢ owner
    → let m' = calls cs (acquire_lock start key owner ttl m).1 in
      (acquire_lock now key other other_ttl m' ≡ (false, m'))
      × (acquire_lock now key owner other_ttl m' ≡ (false, m'))
      × (release_lock key other m' ≡ (false, m'))
unfolding acquire_lock release_lock
lock_exclusive start key owner ttl m cs now other other_ttl got leaves early ne =
    let m' = calls cs (acquire_lock start key owner ttl m).1 in
    let held : Dict.get key m'.locks ≡ some (owner, after start ttl) =
      calls_keep key owner (after start ttl) cs (acquire_lock start key owner ttl m).1 leaves
        (acquired start key owner ttl m got) in
    (ground (arith, held), ground (arith, held), ground (arith, held, eq_iff owner other))

-- After a holder has acquired a key, the next attempt to acquire it succeeds exactly when the lease
-- has expired; the holder can release it, and then anyone can acquire it.
acquire_again :
    (start : ℕ) (key owner : String) (ttl : ℕ) (m : Memory) (now : ℕ) (other : String) (t : ℕ)
    → (acquire_lock start key owner ttl m).0 ≡ true
    → let m' = (acquire_lock start key owner ttl m).1 in
      ((acquire_lock now key other t m').0 ≡ leb (after start ttl) now)
      × ((release_lock key owner m').0 ≡ true)
      × ((acquire_lock now key other t (release_lock key owner m').1).0 ≡ true)
acquire_again start key owner ttl m now other t got =
    let m' = (acquire_lock start key owner ttl m).1 in
    let held : Dict.get key m'.locks ≡ some (owner, after start ttl) =
      acquired start key owner ttl m got in
    unfold acquire_lock release_lock in
    (
      ground (arith, held),
      ground (arith, held, eq_refl owner),
      ground (arith, held, eq_refl owner, eq_refl key, get-pop key key m'.locks),
    )
