-- ===== src/Storage/Operations.antt =====
-- storage/memory.py: one call of a method, as a value. `dequeue_task_for_worker` lets other calls in
-- while it waits, so its steps stand as calls of their own.
use avtomatika.Prelude.{ℕ, String, Option, List, [], ◌∷◌}
use avtomatika.Prelude.Int.{ℤ}
use avtomatika.Value.{Job}
use avtomatika.Storage.{Memory, Worker, WorkerUpdate}
use avtomatika.Storage.Jobs.{
  save_job_state, update_job_state, update_job_state_atomic, enqueue_job, dequeue_job,
  quarantine_job,
}
use avtomatika.Storage.Workers.{
  register_worker, deregister_worker, refresh_worker_ttl, update_worker_data, update_worker_status,
  increment_worker_load, decrement_worker_load, clean_expired,
}
use avtomatika.Storage.Tasks.{enqueue_task_for_worker, open_queue, receive, steal}
use avtomatika.Storage.Watch.{add_job_to_watch, remove_job_from_watch, get_timed_out_jobs}
use avtomatika.Storage.Keys.{
  increment_key_with_ttl, increment_key, set_nx_ttl, set_str, save_blueprint_contract,
  set_task_cancellation_flag,
}
use avtomatika.Storage.Locks.{acquire_lock, release_lock}
use avtomatika.Storage.Tokens.{
  set_worker_token, save_worker_access_token, save_worker_refresh_token,
}
use avtomatika.Storage.Quotas.{
  save_client_config, initialize_client_quota, check_and_decrement_quota,
}
use avtomatika.Storage.Reset.{flush_all}

pub data Op : Type 0 where
  save_job : String → Job → Op
  update_job : String → Job → Op
  update_job_atomic : String → (Job → Job) → Op
  put_job put_quarantined : String → Op
  take_job : Op
  register : ℕ → String → Worker → ℕ → Op
  deregister : String → Op
  refresh : ℕ → String → ℕ → Op
  change : String → WorkerUpdate → Op
  change_status : ℕ → String → WorkerUpdate → ℕ → Op
  load_up load_down : String → Op
  clean : ℕ → Op
  put_task : String → Job → ℤ → Op
  open_tasks take_task steal_task : String → Op
  watch : String → ℕ → Op
  unwatch : String → Op
  sweep : ℕ → ℕ → Op
  count_ttl : ℕ → String → ℕ → Op
  count : String → Op
  set_once : ℕ → String → String → ℕ → Op
  set_text : ℕ → String → String → Option ℕ → Op
  lock : ℕ → String → String → ℕ → Op
  unlock : String → String → Op
  set_token : String → String → Op
  save_access save_refresh : ℕ → String → String → ℕ → Op
  save_config : String → Job → Op
  set_quota : String → ℕ → Op
  save_contract : String → Job → Op
  flag_cancelled : ℕ → String → Op
  use_quota : String → Op
  flush : Op

unfoldable pub perform : Op → Memory → Memory
perform (save_job job_id state) m = save_job_state job_id state m
perform (update_job job_id update_data) m = (update_job_state job_id update_data m).1
perform (update_job_atomic job_id callback) m = (update_job_state_atomic job_id callback m).1
perform (put_job job_id) m = enqueue_job job_id m
perform (put_quarantined job_id) m = quarantine_job job_id m
perform take_job m = (dequeue_job m).1
perform (register now wid info ttl) m = register_worker now wid info ttl m
perform (deregister wid) m = deregister_worker wid m
perform (refresh now wid ttl) m = (refresh_worker_ttl now wid ttl m).1
perform (change wid u) m = (update_worker_data wid u m).1
perform (change_status now wid u ttl) m = (update_worker_status now wid u ttl m).1
perform (load_up wid) m = increment_worker_load wid m
perform (load_down wid) m = decrement_worker_load wid m
perform (clean now) m = clean_expired now m
perform (put_task wid task priority) m = enqueue_task_for_worker wid task priority m
perform (open_tasks wid) m = open_queue wid m
perform (take_task wid) m = (receive wid m).1
perform (steal_task wid) m = (steal wid m).1
perform (watch job_id timeout_at) m = add_job_to_watch job_id timeout_at m
perform (unwatch job_id) m = remove_job_from_watch job_id m
perform (sweep now limit) m = (get_timed_out_jobs now limit m).1
perform (count_ttl now key ttl) m = (increment_key_with_ttl now key ttl m).1
perform (count key) m = (increment_key key m).1
perform (set_once now key value ttl) m = (set_nx_ttl now key value ttl m).1
perform (set_text now key value ttl) m = set_str now key value ttl m
perform (lock now key holder ttl) m = (acquire_lock now key holder ttl m).1
perform (unlock key holder) m = (release_lock key holder m).1
perform (set_token wid token) m = set_worker_token wid token m
perform (save_access now wid token ttl) m = save_worker_access_token now wid token ttl m
perform (save_refresh now wid token ttl) m = save_worker_refresh_token now wid token ttl m
perform (save_config token config) m = save_client_config token config m
perform (set_quota token quota) m = initialize_client_quota token quota m
perform (save_contract name contract) m = save_blueprint_contract name contract m
perform (flag_cancelled now task_id) m = set_task_cancellation_flag now task_id m
perform (use_quota token) m = (check_and_decrement_quota token m).1
perform flush m = flush_all m

-- The calls of all tasks, in the order in which they got the lock.
unfoldable pub perform_all : List Op → Memory → Memory
perform_all [] m = m
perform_all (op ∷ ops) m = perform_all ops (perform op m)
