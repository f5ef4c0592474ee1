-- ===== src/Watcher.antt =====
-- watcher.py: `Watcher`, one round of its loop: the lock, the sweep, and each job or branch that is due.
-- The times of two rounds, and the pause after an error, are those of `asyncio.sleep`.
pub mod Keys
pub mod Locks
pub mod Rounds
use Prim.Native.Char.{Char, code}
use avtomatika.Prelude.{
  ℕ, String, Bool, true, false, Option, none, some, List, [], ◌∷◌, ◌==◌, if◌then◌else◌,
}
use avtomatika.Value.{Job}
use avtomatika.Storage.{Memory}
use avtomatika.Storage.Jobs.{get_job_state}
use avtomatika.Storage.Locks.{acquire_lock, release_lock}
use avtomatika.Storage.Watch.{get_timed_out_jobs}
use avtomatika.Executor.{World, Config, Clock, Step, in_memory}
use avtomatika.Orchestrator.{handle_task_failure, handle_job_timeout}

abbrev prefixed : Char → Option (String × String) → Option (String × String)
prefixed c none = none
prefixed c (some (job_id, task_id)) = some (String.◌∷◌ c job_id, task_id)

-- `job_key.split(":", 1)`, and `none` where the key has no colon.
unfoldable pub split_key : String → Option (String × String)
split_key String.[] = none
split_key (String.◌∷◌ c rest) =
    let later = split_key rest in if code c == b':' then some ("", rest) else prefixed c later

-- `WATCHER_LIMIT` and the identifier of the instance.
pub record WatcherConfig : Type 0 where
  pub instance_id : String
  pub limit : ℕ

module _ (config : Config) (dispatch : Job → Job → World → Step) where
  -- An exception is logged; what was done before it stays.
  abbrev pub fail_branch : Clock → String → Option Job → World → World
  fail_branch clock task_id none w = w
  fail_branch clock task_id (some []) w = w
  fail_branch clock task_id (some (e ∷ job)) w =
      (handle_task_failure config dispatch clock task_id "Worker task timed out (parallel branch)."
        (e ∷ job) w).1.1

  abbrev pub time_out : Clock → Option Job → World → World
  time_out clock none w = w
  time_out clock (some []) w = w
  time_out clock (some (e ∷ job)) w = (handle_job_timeout config dispatch clock (e ∷ job) w).1.1

  abbrev pub process_key : Clock → String → Option (String × String) → World → World
  process_key clock job_key none w = time_out clock (get_job_state job_key w.memory) w
  process_key clock job_key (some (jid, tid)) w =
      fail_branch clock tid (get_job_state jid w.memory) w

  unfoldable pub process_single : Clock → String → World → World
  unfolding split_key
  process_single clock job_key w = process_key clock job_key (split_key job_key) w

  -- `gather` starts the calls in this order; here each ends before the next one starts.
  unfoldable pub process_timed_out : Clock → List String → World → World
  process_timed_out clock [] w = w
  process_timed_out clock (job_key ∷ job_keys) w =
      process_timed_out clock job_keys (process_single clock job_key w)

  -- The lock is for a minute. The result tells whether this instance had it.
  unfoldable pub watch_round : WatcherConfig → Clock → World → Bool × World
  watch_round watcher clock w =
      let (is_mine, m₁) =
        acquire_lock clock.mono "global_watcher_lock" watcher.instance_id 60 w.memory in
      let (timed_out_job_ids, m₂) = get_timed_out_jobs clock.mono watcher.limit m₁ in
      let processed = process_timed_out clock timed_out_job_ids (record w { memory = m₂ }) in
      if is_mine
      then (
        true,
        in_memory (λ m. (release_lock "global_watcher_lock" watcher.instance_id m).1) processed,
      )
      else (false, w)
