-- ===== src/Watcher/Locks.antt =====
-- watcher.py: that the time-outs leave the locks of the store alone.
use avtomatika.Prelude.{
  ℕ, ◌≡◌, refl, ap, ◌∙◌, String, Bool, true, false, Option, none, some, List, [], ◌∷◌,
  if◌then◌else◌,
}
use avtomatika.Dict
use avtomatika.Dict.{Dict}
use avtomatika.Value.{Job}
use avtomatika.Storage.{Memory}
use avtomatika.Storage.Jobs.{get_job_state, save_job_state, quarantine_job}
use avtomatika.Storage.Watch.{add_job_to_watch, remove_job_from_watch}
use avtomatika.Executor.{World, Config, Clock, Step}
use avtomatika.Executor.Outcomes.Retries.{send_job_webhook_memory}
use avtomatika.Orchestrator.{
  has_ended, is_branch, is_picked_up, task_of, timeout_message, log_timeout, lost_task, retry_found,
  fail_task, dispatch_again, quarantine_task, handle_task_failure, handle_job_timeout,
}
use avtomatika.Orchestrator.Failures.{log_timeout_memory}
use avtomatika.Watcher.{
  fail_branch, time_out, process_key, split_key, process_single, process_timed_out,
}

-- The locks of the store after a step.
abbrev pub locks_after : Step → Dict (String × ℕ)
locks_after left = left.1.1.memory.locks

module _ (config : Config) (dispatch : Job → Job → World → Step)
    (keeps : (job task_info : Job) (w : World)
      → locks_after (dispatch job task_info w) ≡ w.memory.locks) where
  lost_task-locks :
      (is_parallel : Bool) (task_id : String) (job : Job) (w : World)
      → locks_after (lost_task config dispatch is_parallel task_id job w) ≡ w.memory.locks
  unfolding lost_task save_job_state
  lost_task-locks true task_id job w = refl
  lost_task-locks false task_id job w = rw (send_job_webhook_memory) refl

  dispatch_again-locks :
      (clock : Clock) (is_parallel : Bool) (task_id : String) (task_info job : Job) (w : World)
      → locks_after (dispatch_again config dispatch clock is_parallel task_id task_info job w)
        ≡ w.memory.locks
  unfolding dispatch_again save_job_state add_job_to_watch remove_job_from_watch
  dispatch_again-locks clock true task_id task_info job w = keeps _ _ _
  dispatch_again-locks clock false task_id task_info job w = keeps _ _ _

  quarantine_task-locks :
      (task_id error_message : String) (job : Job) (w : World)
      → locks_after (quarantine_task config dispatch task_id error_message job w) ≡ w.memory.locks
  unfolding quarantine_task save_job_state quarantine_job
  quarantine_task-locks task_id error_message job w = rw (send_job_webhook_memory) refl

  retry_found-locks :
      (clock : Clock) (is_parallel : Bool) (task_id : String) (found : Option Job) (job : Job)
      (w : World)
      → locks_after (retry_found config dispatch clock is_parallel task_id found job w)
        ≡ w.memory.locks
  retry_found-locks clock is_parallel task_id none job w = lost_task-locks is_parallel task_id job w
  retry_found-locks clock is_parallel task_id (some task_info) job w =
      dispatch_again-locks clock is_parallel task_id task_info job w

  if-locks :
      (b : Bool) (s t : Step) (locks : Dict (String × ℕ))
      → locks_after s ≡ locks
      → locks_after t ≡ locks
      → locks_after (if b then s else t) ≡ locks
  if-locks true s t locks p q = p
  if-locks false s t locks p q = q

  handle_task_failure-locks :
      (clock : Clock) (task_id error_message : String) (job : Job) (w : World)
      → locks_after (handle_task_failure config dispatch clock task_id error_message job w)
        ≡ w.memory.locks
  unfolding handle_task_failure fail_task
  handle_task_failure-locks clock task_id error_message job w =
      if-locks (has_ended job) _ _ _ refl (
        if-locks _ _ _ _ (retry_found-locks clock (is_branch task_id job) task_id _ _ w)
          (quarantine_task-locks task_id error_message job w))

  handle_job_timeout-locks :
      (clock : Clock) (job : Job) (w : World)
      → locks_after (handle_job_timeout config dispatch clock job w) ≡ w.memory.locks
  unfolding handle_job_timeout save_job_state
  handle_job_timeout-locks clock job w =
      let message = timeout_message clock.wall job in
      let logged =
        ap (λ (m : Memory). m.locks) (log_timeout_memory config dispatch message job w) in
      if-locks (has_ended job) _ _ _ refl (
        if-locks (is_picked_up (Dict.get "task_picked_up_at" job)) _ _ _
          (handle_task_failure-locks clock (task_of job) message job (log_timeout message job w)
            ∙ logged)
          (rw (send_job_webhook_memory) logged))

  fail_branch-locks :
      (clock : Clock) (task_id : String) (found : Option Job) (w : World)
      → (fail_branch config dispatch clock task_id found w).memory.locks ≡ w.memory.locks
  fail_branch-locks clock task_id none w = refl
  fail_branch-locks clock task_id (some []) w = refl
  fail_branch-locks clock task_id (some (e ∷ job)) w =
      handle_task_failure-locks clock task_id _ (e ∷ job) w

  time_out-locks :
      (clock : Clock) (found : Option Job) (w : World)
      → (time_out config dispatch clock found w).memory.locks ≡ w.memory.locks
  time_out-locks clock none w = refl
  time_out-locks clock (some []) w = refl
  time_out-locks clock (some (e ∷ job)) w = handle_job_timeout-locks clock (e ∷ job) w

  process_key-locks :
      (clock : Clock) (job_key : String) (parts : Option (String × String)) (w : World)
      → (process_key config dispatch clock job_key parts w).memory.locks ≡ w.memory.locks
  process_key-locks clock job_key none w = time_out-locks clock (get_job_state job_key w.memory) w
  process_key-locks clock job_key (some (jid, tid)) w =
      fail_branch-locks clock tid (get_job_state jid w.memory) w

  pub process_timed_out-locks :
      (clock : Clock) (job_keys : List String) (w : World)
      → (process_timed_out config dispatch clock job_keys w).memory.locks ≡ w.memory.locks
  unfolding process_timed_out process_single
  process_timed_out-locks clock [] w = refl
  process_timed_out-locks clock (job_key ∷ job_keys) w =
      process_timed_out-locks clock job_keys (process_single config dispatch clock job_key w)
      ∙ process_key-locks clock job_key (split_key job_key) w
