-- ===== src/Storage/Keys/Window.antt =====
-- storage/memory.py: the counters with a time to live, which limit the rate of requests, and the
-- keys that are set once.
use avtomatika.Prelude.{
  ℕ, ◌+◌, ◌≤◌, ◌≡◌, refl, String, Bool, true, false, Option, none, some, List, [], ◌∷◌, arith, ltb,
  eq_refl, Bool-cases, inl, inr,
}
use avtomatika.Dict
use avtomatika.Dict.{get-put, get-put_self, has_key}
use avtomatika.Dict.Unique.{IsUnique, put-IsUnique}
use avtomatika.Value.{Value, num, text}
use avtomatika.Storage.{Memory}
use avtomatika.Storage.Workers.{after, clean_expired}
use avtomatika.Storage.Workers.Expiry.{live_value, clean_value, clean_expired-IsUnique}
use avtomatika.Storage.Keys.{is_stale, increment_key_with_ttl, set_nx_ttl}

abbrev is_none : Option Value → Bool
is_none none = true
is_none (some v) = false

-- The counts that calls at these times get, one after the other.
unfoldable pub counts : List ℕ → String → ℕ → Memory → List (Option ℕ)
counts [] key ttl m = []
counts (now ∷ times) key ttl m =
    let (n, m') = increment_key_with_ttl now key ttl m in n ∷ counts times key ttl m'

-- No call comes later than the time to live after the one before it.
abbrev pub NoGap : ℕ → ℕ → List ℕ → Type 0
NoGap ttl last [] = Unit
NoGap ttl last (now ∷ times) = (now ≤ after last ttl) × NoGap ttl now times

-- `some n ∷ some (n + 1) ∷ …`, as many as the times
unfoldable pub count_up : ℕ → List ℕ → List (Option ℕ)
count_up n [] = []
count_up n (now ∷ times) = some n ∷ count_up (n + 1) times

-- The key holds the count `n` of a call at `last`.
record IsCount (key : String) (ttl last n : ℕ) (m : Memory) : Type 0 where
  value : Dict.get key m.generic_keys ≡ some (num n)
  deadline : Dict.get key m.generic_key_ttls ≡ some (after last ttl)

module _ (key : String) (ttl : ℕ) where
  next-IsCount :
      (last now n : ℕ) (m : Memory)
      → IsCount key ttl last n m
      → now ≤ after last ttl
      → ((increment_key_with_ttl now key ttl m).0 ≡ some (n + 1))
        × IsCount key ttl now (n + 1) (increment_key_with_ttl now key ttl m).1
  unfolding increment_key_with_ttl
  next-IsCount last now n m c h = ground (
    arith,
    c.value,
    c.deadline,
    get-put key key (num (n + 1)) m.generic_keys,
    get-put key key (after now ttl) m.generic_key_ttls,
    eq_refl key,
  )

  first-IsCount :
      (now : ℕ) (m : Memory)
      → is_stale now key m ≡ true
      → ((increment_key_with_ttl now key ttl m).0 ≡ some 1)
        × IsCount key ttl now 1 (increment_key_with_ttl now key ttl m).1
  unfolding increment_key_with_ttl
  first-IsCount now m h = ground (
    arith,
    get-put key key (num 1) m.generic_keys,
    get-put key key (after now ttl) m.generic_key_ttls,
    eq_refl key,
  )

  counts-count_up :
      (times : List ℕ) (last n : ℕ) (m : Memory)
      → IsCount key ttl last n m
      → NoGap ttl last times
      → counts times key ttl m ≡ count_up (n + 1) times
  unfolding counts count_up
  counts-count_up [] last n m c h = refl
  counts-count_up (now ∷ times) last n m c h =
      let step = next-IsCount last now n m c h.0 in
      cc (
        step.0,
        counts-count_up times now (n + 1) (increment_key_with_ttl now key ttl m).1 step.1 h.1,
      )

  -- The first call on a key that is missing or past its deadline counts 1, and the calls after it
  -- count on by one as long as none comes later than the time to live after the one before: the
  -- deadline moves with every call, also with a call that a limit then refuses.
  pub counts_lem :
      (now : ℕ) (times : List ℕ) (m : Memory)
      → is_stale now key m ≡ true
      → NoGap ttl now times
      → counts (now ∷ times) key ttl m ≡ count_up 1 (now ∷ times)
  unfolding counts count_up
  counts_lem now times m stale h =
      let first = first-IsCount now m stale in
      cc (first.0, counts-count_up times now 1 (increment_key_with_ttl now key ttl m).1 first.1 h)

module _ (now : ℕ) (key value : String) (ttl : ℕ) (m : Memory) (u : IsUnique m.generic_key_ttls)
    (w : IsUnique m.worker_ttls) where
  set_result : (set_nx_ttl now key value ttl m).0 ≡ is_none (live_value now key m)
  unfolding set_nx_ttl
  set_result = ground (arith, clean_value now m u w key)

  -- The store after the key was set.
  set_state :
      (set_nx_ttl now key value ttl m).0 ≡ true
      → let m' = (set_nx_ttl now key value ttl m).1 in
        (Dict.get key m'.generic_keys ≡ some (text value))
        × (Dict.get key m'.generic_key_ttls ≡ some (after now ttl))
  unfolding set_nx_ttl
  set_state h =
      let m' = clean_expired now m in
      ground (
        arith,
        get-put_self key (text value) m'.generic_keys,
        get-put_self key (after now ttl) m'.generic_key_ttls,
      )

  set_IsUnique :
      let m' = (set_nx_ttl now key value ttl m).1 in
      IsUnique m'.generic_key_ttls × IsUnique m'.worker_ttls
  unfolding set_nx_ttl
  set_IsUnique =
      let (u', w') = clean_expired-IsUnique now m u w in
      elim (Bool-cases (has_key key (clean_expired now m).generic_keys)) [
        | inl there ↦ rw there (u', w')
        | inr fresh ↦ rw fresh (put-IsUnique key (after now ttl) _ u', w')
      ]

-- Set once. In a store with one deadline for a key and for a worker, after `set_nx_ttl` has set a
-- key, it refuses to set the key again up to and including the moment of the deadline, and sets it
-- again after that.
set_nx_ttl_lem :
    (start now : ℕ) (key value value' : String) (ttl ttl' : ℕ) (m : Memory)
    → IsUnique m.generic_key_ttls
    → IsUnique m.worker_ttls
    → (set_nx_ttl start key value ttl m).0 ≡ true
    → let again = set_nx_ttl now key value' ttl' (set_nx_ttl start key value ttl m).1 in
      again.0 ≡ ltb (after start ttl) now
set_nx_ttl_lem start now key value value' ttl ttl' m u w h =
    let m' = (set_nx_ttl start key value ttl m).1 in
    let (u', w') = set_IsUnique start key value ttl m u w in
    let (there, until) = set_state start key value ttl m u w h in
    let answer = set_result now key value' ttl' m' u' w' in
    unfold live_value in ground (arith, answer, there, until)
