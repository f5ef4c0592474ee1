-- ===== src/Scheduler/Once.antt =====
-- scheduler.py: how often a calendar job is started.
use avtomatika.Prelude.{
  ap, List, [], ◌∷◌, All, str_eq, eq_iff, ℕ, ◌≡◌, ◌≤◌, refl, ◌∙◌, arith, String, Bool, true, false,
  Option, some, ltb, if◌then◌else◌, Bool-cases, Option-cases, inl, inr,
}
use avtomatika.Dict
use avtomatika.Dict.{Dict, has_key, get-put_self, get-put_ne}
use avtomatika.Dict.Unique.{IsUnique, put-IsUnique}
use avtomatika.Value.{Value, text, Job}
use avtomatika.Storage.{Memory}
use avtomatika.Storage.Jobs.{save_job_state, enqueue_job}
use avtomatika.Storage.Keys.{set_nx_ttl}
use avtomatika.Storage.Watch.{add_job_to_watch}
use avtomatika.Storage.Workers.{after, clean_expired}
use avtomatika.Storage.Workers.Expiry.{
  live_value, clean_value, clean_deadline, clean_expired-IsUnique,
}
use avtomatika.Blueprint.{Blueprint}
use avtomatika.Executor.{World, Context, Clock, Engine, log_job_event, in_memory}
use avtomatika.Executor.Creation.{NewJob, nonzero, created, create_background_job}
use avtomatika.Scheduler.{
  ScheduledJobConfig, Moment, lock_key, is_due, is_refused, job_args, trigger_job,
  process_calendar_job,
}

-- The generic keys with their deadlines, and the deadlines of the workers, are the same.
abbrev SameKeys : Memory → Memory → Type 0
SameKeys m m' =
    (m'.generic_keys ≡ m.generic_keys)
    × (m'.generic_key_ttls ≡ m.generic_key_ttls)
    × (m'.worker_ttls ≡ m.worker_ttls)

-- The key has the value until the deadline.
abbrev Held : String → String → ℕ → Memory → Type 0
Held key value deadline m =
    (Dict.get key m.generic_keys ≡ some (text value))
    × (Dict.get key m.generic_key_ttls ≡ some deadline)
    × IsUnique m.generic_key_ttls
    × IsUnique m.worker_ttls

Held-SameKeys :
    (key value : String) (deadline : ℕ) (m m' : Memory)
    → SameKeys m m'
    → Held key value deadline m
    → Held key value deadline m'
Held-SameKeys key value deadline m m' (keys, ttls, workers) h = rw (keys, ttls, workers) h

set_nx_ttl-Held :
    (start : ℕ) (key value : String) (ttl : ℕ) (m : Memory)
    → IsUnique m.generic_key_ttls
    → IsUnique m.worker_ttls
    → (set_nx_ttl start key value ttl m).0 ≡ true
    → Held key value (after start ttl) (set_nx_ttl start key value ttl m).1
unfolding set_nx_ttl
set_nx_ttl-Held start key value ttl m u w e =
    let m₁ = clean_expired start m in
    let (u₁, w₁) = clean_expired-IsUnique start m u w in
    elim (Bool-cases (has_key key m₁.generic_keys)) [
      | inl taken ↦ absurd (ground arith)
      | inr fresh ↦ rw fresh (
        get-put_self key (text value) m₁.generic_keys,
        get-put_self key (after start ttl) m₁.generic_key_ttls,
        put-IsUnique key (after start ttl) m₁.generic_key_ttls u₁,
        w₁,
      )
    ]

if_then : (b : Bool) (x y : Bool × Memory) → b ≡ true → (if b then x else y) ≡ x
if_then true x y e = refl
if_then false x y e = cc

set_nx_ttl-refused :
    (now : ℕ) (key value other_value : String) (deadline ttl : ℕ) (m : Memory)
    → Held key value deadline m
    → now ≤ deadline
    → set_nx_ttl now key other_value ttl m ≡ (false, clean_expired now m)
unfolding set_nx_ttl live_value
set_nx_ttl-refused now key value other_value deadline ttl m (found, until, u, w) early =
    let in_time : ltb deadline now ≡ false = ground arith in
    let live : live_value now key m ≡ some (text value) = rw (until, in_time, found) refl in
    let kept = clean_value now m u w key ∙ live in
    let taken : has_key key (clean_expired now m).generic_keys ≡ true = rw (kept, has_key) refl in
    if_then (has_key key (clean_expired now m).generic_keys) _ _ taken

-- A key without a value is not one that has one.
free_other :
    (other key : String) (d : Dict Value) (value : String)
    → Dict.get key d ≡ some (text value)
    → has_key other d ≡ false
    → str_eq other key ≡ false
free_other other key d value found fresh = elim (Bool-cases (str_eq other key)) [
  | inl same ↦
      let it_is : other ≡ key = ground (arith, eq_iff other key) in
      let there : has_key key d ≡ true = rw (found, has_key) refl in
      absurd (ground (arith, there, ap (λ k. has_key k d) it_is))
  | inr apart ↦ apart
]

clean_expired-Held :
    (now : ℕ) (key value : String) (deadline : ℕ) (m : Memory)
    → now ≤ deadline
    → Held key value deadline m
    → Held key value deadline (clean_expired now m)
unfolding live_value
clean_expired-Held now key value deadline m early (found, until, u, w) =
    let in_time : ltb deadline now ≡ false = ground arith in
    let live : live_value now key m ≡ some (text value) = rw (until, in_time, found) refl in
    let (u', w') = clean_expired-IsUnique now m u w in
    (
      clean_value now m u w key ∙ live,
      clean_deadline now m u w key ∙ rw (until, in_time) refl,
      u',
      w',
    )

-- A call for any key keeps one that is held, before its deadline.
set_nx_ttl-keeps :
    (now : ℕ) (other other_value : String) (ttl : ℕ) (key value : String) (deadline : ℕ)
    (m : Memory)
    → now ≤ deadline
    → Held key value deadline m
    → Held key value deadline (set_nx_ttl now other other_value ttl m).1
unfolding set_nx_ttl
set_nx_ttl-keeps now other other_value ttl key value deadline m early held =
    let m₁ = clean_expired now m in
    let (found, until, u, w) = clean_expired-Held now key value deadline m early held in
    elim (Bool-cases (has_key other m₁.generic_keys)) [
      | inl taken ↦ rw taken (found, until, u, w)
      | inr fresh ↦
          let apart : str_eq other key ≡ false =
            free_other other key m₁.generic_keys value found fresh in
          rw fresh (
            get-put_ne other key (text other_value) m₁.generic_keys apart ∙ found,
            get-put_ne other key (after now ttl) m₁.generic_key_ttls apart ∙ until,
            put-IsUnique other (after now ttl) m₁.generic_key_ttls u,
            w,
          )
    ]

module _ {F : Type 0} (uuid : ℕ → String) (injected : Job) (engine : Engine F)
    (validate_data : Value → Value → Option String) where
  created-SameKeys :
      (clock : Clock) (blueprint : Blueprint F Context) (args : NewJob) (w : World)
      → SameKeys w.memory (created uuid injected engine clock blueprint args w).1.memory
  unfolding created save_job_state enqueue_job add_job_to_watch log_job_event
  created-SameKeys clock blueprint args w = elim (Option-cases (nonzero args.dispatch_timeout)) [
    | inl never ↦ rw never (refl, refl, refl)
    | inr timed ↦ rw (timed.1) (refl, refl, refl)
  ]

  trigger_job-SameKeys :
      (clock : Clock) (job : ScheduledJobConfig) (w : World)
      → SameKeys w.memory (trigger_job uuid injected engine validate_data clock job w).memory
  unfolding trigger_job create_background_job
  trigger_job-SameKeys clock job w =
      elim (Bool-cases (is_refused uuid injected engine validate_data job)) [
        | inl refused ↦ rw refused (refl, refl, refl)
        | inr accepted ↦ elim (Option-cases (Dict.get job.blueprint engine.blueprints)) [
          | inl unknown ↦ rw (accepted, unknown, create_background_job) (refl, refl, refl)
          | inr known ↦
              rw (accepted, known.1, create_background_job)
                (created-SameKeys clock (known.0) (job_args uuid injected engine validate_data job)
                  w)
        ]
      ]

  -- Later attempts to start a schedule, by whatever instance.
  abbrev pub attempt_all : (String → String) → List (ScheduledJobConfig × Moment) → World → World
  attempt_all lower [] w = w
  attempt_all lower ((job, now) ∷ attempts) w =
      attempt_all lower attempts
        (process_calendar_job uuid injected engine validate_data lower job now w)

  -- A key that is held stays held, whatever schedule is processed before the deadline.
  process_calendar_job-Held :
      (lower : String → String) (key value : String) (deadline : ℕ) (job : ScheduledJobConfig)
      (now : Moment) (w : World)
      → now.clock.mono ≤ deadline
      → Held key value deadline w.memory
      → Held key value deadline
          (process_calendar_job uuid injected engine validate_data lower job now w).memory
  unfolding process_calendar_job
  process_calendar_job-Held lower key value deadline job now w early held =
      let taken = set_nx_ttl now.clock.mono (lock_key job now) "locked" 86400 w.memory in
      let kept =
        set_nx_ttl-keeps now.clock.mono (lock_key job now) "locked" 86400 key value deadline
          w.memory early held in
      let w₁ = record w { memory = taken.1 } in
      elim (Bool-cases (is_due lower job now)) [
        | inl due ↦ elim (Bool-cases (taken.0)) [
          | inl first ↦
              rw (due, first)
                (Held-SameKeys key value deadline taken.1
                  (trigger_job uuid injected engine validate_data now.clock job w₁).memory
                  (trigger_job-SameKeys now.clock job w₁) kept)
          | inr later ↦ rw (due, later) kept
        ]
        | inr idle ↦ rw idle held
      ]

  -- All the attempts come by the deadline.
  abbrev pub AreBefore : ℕ → List (ScheduledJobConfig × Moment) → Type 0
  AreBefore deadline attempts = All (λ a. a.1.clock.mono ≤ deadline) attempts

  attempt_all-Held :
      (lower : String → String) (key value : String) (deadline : ℕ)
      (attempts : List (ScheduledJobConfig × Moment)) (w : World)
      → AreBefore deadline attempts
      → Held key value deadline w.memory
      → Held key value deadline (attempt_all lower attempts w).memory
  attempt_all-Held lower key value deadline [] w early held = held
  attempt_all-Held lower key value deadline ((job, now) ∷ attempts) w early held =
      attempt_all-Held lower key value deadline attempts
        (process_calendar_job uuid injected engine validate_data lower job now w) early.1
        (process_calendar_job-Held lower key value deadline job now w early.0 held)

  -- Under the rules of the calendar a job is started at most once for a date. Where an instance got
  -- the key for the date, then, after any number of attempts to start this schedule and others, by
  -- whatever instances, an attempt at a moment of the same date starts nothing: only what has expired
  -- is removed from the store. All these attempts come in the 24 hours after the first, on the clock
  -- of the storage.
  pub process_calendar_job-once :
      (lower : String → String) (job : ScheduledJobConfig) (first : Moment)
      (attempts : List (ScheduledJobConfig × Moment)) (next : Moment) (w : World)
      → IsUnique w.memory.generic_key_ttls
      → IsUnique w.memory.worker_ttls
      → is_due lower job first ≡ true
      → (set_nx_ttl first.clock.mono (lock_key job first) "locked" 86400 w.memory).0 ≡ true
      → AreBefore (after first.clock.mono 86400) attempts
      → next.date_str ≡ first.date_str
      → next.clock.mono ≤ after first.clock.mono 86400
      → let w' =
          attempt_all lower attempts
            (process_calendar_job uuid injected engine validate_data lower job first w) in
        process_calendar_job uuid injected engine validate_data lower job next w'
        ≡ (if is_due lower job next then in_memory (clean_expired next.clock.mono) w' else w')
  unfolding process_calendar_job
  process_calendar_job-once lower job first attempts next w u v due got between same early =
      let key = lock_key job first in
      let deadline = after first.clock.mono 86400 in
      let m₁ = (set_nx_ttl first.clock.mono key "locked" 86400 w.memory).1 in
      let w₁ =
        trigger_job uuid injected engine validate_data first.clock job (record w { memory = m₁ }) in
      let held =
        Held-SameKeys key "locked" deadline m₁ w₁.memory
          (trigger_job-SameKeys first.clock job (record w { memory = m₁ }))
          (set_nx_ttl-Held first.clock.mono key "locked" 86400 w.memory u v got) in
      let refused =
        set_nx_ttl-refused next.clock.mono key "locked" "locked" deadline 86400
          (attempt_all lower attempts w₁).memory
          (attempt_all-Held lower key "locked" deadline attempts w₁ between held) early in
      rw (due, got, same, refused) refl
