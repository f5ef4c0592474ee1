-- ===== src/Watcher/Rounds.antt =====
-- watcher.py: what a round of the watcher does with the lock, and with a key that is due.
use avtomatika.Prelude.{
  ℕ, ◌≡◌, ◌≢◌, ◌⊎◌, refl, ap, ◌∙◌, String, Bool, true, false, some, [], ◌∷◌, arith, eq_refl,
  Bool-cases, inl, inr, if◌then◌else◌,
}
use avtomatika.Dict
use avtomatika.Dict.{Dict, get-put, get-pop}
use avtomatika.Value.{Job}
use avtomatika.Storage.{Memory}
use avtomatika.Storage.Jobs.{get_job_state}
use avtomatika.Storage.Locks.{acquire_lock, release_lock}
use avtomatika.Storage.Locks.Exclusion.{acquired}
use avtomatika.Storage.Watch.{get_timed_out_jobs}
use avtomatika.Storage.Workers.{after}
use avtomatika.Executor.{World, Config, Clock, Step}
use avtomatika.Orchestrator.{watch_key, handle_task_failure, handle_job_timeout}
use avtomatika.Watcher.{
  WatcherConfig, time_out, fail_branch, process_key, process_single, process_timed_out, watch_round,
}
use avtomatika.Watcher.Keys.{has_colon, split_key-watch_key}
use avtomatika.Watcher.Locks.{locks_after, process_timed_out-locks}

-- The lock that the owner has is free after its release.
release_lock-free :
    (key owner : String) (expiry : ℕ) (m : Memory)
    → Dict.get key m.locks ≡ some (owner, expiry)
    → (later : ℕ) (other : String) (ttl : ℕ)
    → (acquire_lock later key other ttl (release_lock key owner m).1).0 ≡ true
unfolding acquire_lock release_lock
release_lock-free key owner expiry m held later other ttl =
    ground (arith, held, eq_refl owner, eq_refl key, get-pop key key m.locks)

swept-locks : (now limit : ℕ) (m : Memory) → (get_timed_out_jobs now limit m).1.locks ≡ m.locks
unfolding get_timed_out_jobs
swept-locks now limit m = refl

module _ (config : Config) (dispatch : Job → Job → World → Step) where
  -- A round takes place exactly when the instance gets the watcher's lock, and changes nothing
  -- otherwise. After a round that took place anyone gets the lock at once, whatever was due and
  -- whichever of the calls raised, if the dispatcher leaves the locks alone.
  pub watch_round_lem :
      (watcher : WatcherConfig) (clock : Clock) (w : World)
      → ((job task_info : Job) (v : World)
          → locks_after (dispatch job task_info v) ≡ v.memory.locks)
      → let got =
          (acquire_lock clock.mono "global_watcher_lock" watcher.instance_id 60 w.memory).0 in
        let (ran, w') = watch_round config dispatch watcher clock w in
        ((got ≡ false) × (ran ≡ false) × (w' ≡ w))
        ⊎ ((got ≡ true)
            × (ran ≡ true)
            × ((later : ℕ) (other : String) (ttl : ℕ)
                → (acquire_lock later "global_watcher_lock" other ttl w'.memory).0 ≡ true))
  unfolding watch_round
  watch_round_lem watcher clock w keeps =
      let key : String = "global_watcher_lock" in
      let owner = watcher.instance_id in
      let (got, m₁) = acquire_lock clock.mono key owner 60 w.memory in
      let (job_ids, m₂) = get_timed_out_jobs clock.mono watcher.limit m₁ in
      let w₂ = record w { memory = m₂ } in
      let processed = process_timed_out config dispatch clock job_ids w₂ in
      elim (Bool-cases got) [
        | inl e ↦ inr (
          e,
          rw e refl,
          rw e (
              release_lock-free key owner (after clock.mono 60) processed.memory (
                ap (Dict.get key) (
                  process_timed_out-locks config dispatch keeps clock job_ids w₂
                  ∙ swept-locks clock.mono watcher.limit m₁)
                ∙ acquired clock.mono key owner 60 w.memory e)),
        )
        | inr e ↦ inl (e, rw e refl, rw e refl)
      ]

  time_out_found :
      (clock : Clock) (job : Job) (w : World)
      → job ≢ []
      → time_out config dispatch clock (some job) w
        ≡ (handle_job_timeout config dispatch clock job w).1.1
  time_out_found clock [] w n = absurd (n refl)
  time_out_found clock (e ∷ job) w n = refl

  fail_branch_found :
      (clock : Clock) (task_id : String) (job : Job) (w : World)
      → job ≢ []
      → fail_branch config dispatch clock task_id (some job) w
        ≡ (handle_task_failure config dispatch clock task_id
            "Worker task timed out (parallel branch)." job w).1.1
  fail_branch_found clock task_id [] w n = absurd (n refl)
  fail_branch_found clock task_id (e ∷ job) w n = refl

  -- A task that is due is the one that was put under watch. For the key that the dispatcher, the
  -- engine and the worker service make of a job and a task, where the store holds the job and its
  -- identifier has no colon: if the task is a parallel branch, the watcher does what the failure of
  -- that branch does to that job, and else what a time-out of that job does.
  pub process_single-watch_key :
      (clock : Clock) (is_parallel : Bool) (job_id task_id : String) (job : Job) (w : World)
      → has_colon job_id ≡ false
      → get_job_state job_id w.memory ≡ some job
      → job ≢ []
      → process_single config dispatch clock (watch_key is_parallel job_id task_id) w ≡ (
          if is_parallel
          then (handle_task_failure config dispatch clock task_id
              "Worker task timed out (parallel branch)." job w).1.1
          else (handle_job_timeout config dispatch clock job w).1.1)
  unfolding process_single
  process_single-watch_key clock true job_id task_id job w plain found n =
      ap (λ parts. process_key config dispatch clock (watch_key true job_id task_id) parts w)
        (split_key-watch_key true job_id task_id plain)
      ∙ ap (λ o. fail_branch config dispatch clock task_id o w) found
      ∙ fail_branch_found clock task_id job w n
  process_single-watch_key clock false job_id task_id job w plain found n =
      ap (λ parts. process_key config dispatch clock job_id parts w)
        (split_key-watch_key false job_id task_id plain)
      ∙ ap (λ o. time_out config dispatch clock o w) found
      ∙ time_out_found clock job w n
