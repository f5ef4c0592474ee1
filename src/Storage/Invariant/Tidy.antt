-- ===== src/Storage/Invariant/Tidy.antt =====
-- storage/memory.py: no call makes a second entry for a key.
use avtomatika.Prelude.{ℕ, String, arith}
use avtomatika.Dict.Unique.{IsUnique, put-IsUnique, pop-IsUnique, pop_all-IsUnique}
use avtomatika.Storage.{Memory}
use avtomatika.Storage.Jobs.{
  save_job_state, update_job_state, update_job_state_atomic, enqueue_job, dequeue_job,
  quarantine_job,
}
use avtomatika.Storage.Workers.{
  register_worker, deregister_worker, refresh_worker_ttl, update_worker_data, update_worker_status,
  increment_worker_load, decrement_worker_load, clean_expired,
}
use avtomatika.Storage.Tasks.{enqueue_task_for_worker, open_queue, receive, steal}
use avtomatika.Storage.Watch.{add_job_to_watch, remove_job_from_watch, get_timed_out_jobs}
use avtomatika.Storage.Keys.{
  increment_key_with_ttl, increment_key, set_nx_ttl, set_str, save_blueprint_contract,
  set_task_cancellation_flag,
}
use avtomatika.Storage.Locks.{acquire_lock, release_lock}
use avtomatika.Storage.Tokens.{
  set_worker_token, save_worker_access_token, save_worker_refresh_token,
}
use avtomatika.Storage.Quotas.{
  save_client_config, initialize_client_quota, check_and_decrement_quota,
}
use avtomatika.Storage.Reset.{flush_all}
use avtomatika.Storage.Operations.{Op, perform}

-- The dicts that the methods go through have one entry for a key.
pub record IsTidy (m : Memory) : Type 0 where
  pub workers : IsUnique m.workers
  pub worker_ttls : IsUnique m.worker_ttls
  pub worker_task_queues : IsUnique m.worker_task_queues
  pub watched_jobs : IsUnique m.watched_jobs
  pub generic_keys : IsUnique m.generic_keys
  pub generic_key_ttls : IsUnique m.generic_key_ttls
  pub worker_tokens : IsUnique m.worker_tokens

ruleset unique_laws = (put-IsUnique, pop-IsUnique, pop_all-IsUnique)

clean_expired-IsTidy : (now : ℕ) (m : Memory) → IsTidy m → IsTidy (clean_expired now m)
unfolding clean_expired
clean_expired-IsTidy now m t = record {
  workers = pop_all-IsUnique _ m.workers t.workers;
  worker_ttls = pop_all-IsUnique _ m.worker_ttls t.worker_ttls;
  worker_task_queues = t.worker_task_queues;
  watched_jobs = t.watched_jobs;
  generic_keys = pop_all-IsUnique _ m.generic_keys t.generic_keys;
  generic_key_ttls = pop_all-IsUnique _ m.generic_key_ttls t.generic_key_ttls;
  worker_tokens = t.worker_tokens;
}

receive-IsTidy : (wid : String) (m : Memory) → IsTidy m → IsTidy (receive wid m).1
unfolding receive
receive-IsTidy wid m t = grind (arith, unique_laws)

steal-IsTidy : (wid : String) (m : Memory) → IsTidy m → IsTidy (steal wid m).1
unfolding steal
steal-IsTidy wid m t = grind (arith, receive-IsTidy)

set_nx_ttl-IsTidy :
    (now : ℕ) (key value : String) (ttl : ℕ) (m : Memory)
    → IsTidy m
    → IsTidy (set_nx_ttl now key value ttl m).1
unfolding set_nx_ttl
set_nx_ttl-IsTidy now key value ttl m t =
    let clean = clean_expired-IsTidy now m t in grind (arith, unique_laws, clean)

pub perform-IsTidy : (op : Op) (m : Memory) → IsTidy m → IsTidy (perform op m)
unfolding perform save_job_state update_job_state update_job_state_atomic enqueue_job quarantine_job
    dequeue_job register_worker deregister_worker refresh_worker_ttl update_worker_data
    update_worker_status increment_worker_load decrement_worker_load enqueue_task_for_worker
    open_queue receive add_job_to_watch remove_job_from_watch get_timed_out_jobs
    increment_key_with_ttl increment_key set_str set_task_cancellation_flag save_blueprint_contract
    acquire_lock release_lock set_worker_token save_worker_access_token save_worker_refresh_token
    save_client_config initialize_client_quota check_and_decrement_quota flush_all
perform-IsTidy (Op.clean now) m t = clean_expired-IsTidy now m t
perform-IsTidy (Op.set_once now key value ttl) m t = set_nx_ttl-IsTidy now key value ttl m t
perform-IsTidy (Op.steal_task wid) m t = steal-IsTidy wid m t
perform-IsTidy op m t = grind (arith, unique_laws)
