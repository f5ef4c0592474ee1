-- ===== src/Storage/Invariant/Registry.antt =====
-- storage/memory.py: every registered worker has a deadline and a queue of tasks.
use avtomatika.Prelude.{ℕ, ◌≡◌, refl, String, true, arith, eq_iff}
use avtomatika.Dict.{has_key, get, get-put, get-pop}
use avtomatika.Storage.{Memory}
use avtomatika.Storage.Jobs.{
  save_job_state, update_job_state, update_job_state_atomic, enqueue_job, dequeue_job,
  quarantine_job,
}
use avtomatika.Storage.Workers.{
  register_worker, deregister_worker, refresh_worker_ttl, update_worker_data, update_worker_status,
  increment_worker_load, decrement_worker_load, clean_expired,
}
use avtomatika.Storage.Workers.Expiry.{clean_expired_lem}
use avtomatika.Storage.Tasks.{enqueue_task_for_worker, open_queue, receive, steal}
use avtomatika.Storage.Watch.{add_job_to_watch, remove_job_from_watch, get_timed_out_jobs}
use avtomatika.Storage.Keys.{
  increment_key_with_ttl, increment_key, set_nx_ttl, set_str, save_blueprint_contract,
  set_task_cancellation_flag,
}
use avtomatika.Storage.Locks.{acquire_lock, release_lock}
use avtomatika.Storage.Tokens.{
  set_worker_token, save_worker_access_token, save_worker_refresh_token,
}
use avtomatika.Storage.Quotas.{
  save_client_config, initialize_client_quota, check_and_decrement_quota,
}
use avtomatika.Storage.Reset.{flush_all}
use avtomatika.Storage.Operations.{Op, perform}
use avtomatika.Storage.Invariant.Tidy.{IsTidy}

-- A worker is known exactly when it has a deadline, and a known worker has a queue.
pub record IsRegistry (m : Memory) : Type 0 where
  pub paired : (k : String) → has_key k m.workers ≡ has_key k m.worker_ttls
  pub queued : (k : String) → has_key k m.workers ≡ true → has_key k m.worker_task_queues ≡ true

ruleset laws = (arith, get-put, get-pop, eq_iff)

clean_expired-IsRegistry :
    (now : ℕ) (m : Memory) → IsTidy m → IsRegistry m → IsRegistry (clean_expired now m)
clean_expired-IsRegistry now m t r = record {
  paired = λ k.
      let l = clean_expired_lem now m t.generic_key_ttls t.worker_ttls k in
      ground (arith, l.1, l.2, r.paired k);
  queued = λ k h.
      let l = clean_expired_lem now m t.generic_key_ttls t.worker_ttls k in
      ground (arith, l.1, l.4, r.queued k);
}

set_nx_ttl-IsRegistry :
    (now : ℕ) (key value : String) (ttl : ℕ) (m : Memory)
    → IsTidy m
    → IsRegistry m
    → IsRegistry (set_nx_ttl now key value ttl m).1
unfolding set_nx_ttl
set_nx_ttl-IsRegistry now key value ttl m t r =
    let clean = clean_expired-IsRegistry now m t r in
    record {
      paired = λ k. ground (arith, clean.paired k);
      queued = λ k h. ground (arith, clean.queued k);
    }

receive-IsRegistry : (wid : String) (m : Memory) → IsRegistry m → IsRegistry (receive wid m).1
unfolding receive
receive-IsRegistry wid m r = grind laws

steal-IsRegistry : (wid : String) (m : Memory) → IsRegistry m → IsRegistry (steal wid m).1
unfolding steal
steal-IsRegistry wid m r = grind (arith, receive-IsRegistry)

flush_all-IsRegistry : (m : Memory) → IsRegistry (flush_all m)
unfolding flush_all get
flush_all-IsRegistry m = record { paired = λ k. refl; queued = λ k h. h }

pub perform-IsRegistry :
    (op : Op) (m : Memory) → IsTidy m → IsRegistry m → IsRegistry (perform op m)
unfolding perform save_job_state update_job_state update_job_state_atomic enqueue_job dequeue_job
    quarantine_job register_worker deregister_worker refresh_worker_ttl update_worker_data
    update_worker_status increment_worker_load decrement_worker_load enqueue_task_for_worker
    open_queue receive add_job_to_watch remove_job_from_watch get_timed_out_jobs
    increment_key_with_ttl increment_key set_str set_task_cancellation_flag save_blueprint_contract
    acquire_lock release_lock set_worker_token save_worker_access_token save_worker_refresh_token
    save_client_config initialize_client_quota check_and_decrement_quota
perform-IsRegistry (Op.register now wid info ttl) m t r = grind laws
perform-IsRegistry (Op.deregister wid) m t r = grind laws
perform-IsRegistry (Op.refresh now wid ttl) m t r = grind laws
perform-IsRegistry (Op.change wid u) m t r = grind laws
perform-IsRegistry (Op.change_status now wid u ttl) m t r = grind laws
perform-IsRegistry (Op.load_up wid) m t r = grind laws
perform-IsRegistry (Op.load_down wid) m t r = grind laws
perform-IsRegistry (Op.clean now) m t r = clean_expired-IsRegistry now m t r
perform-IsRegistry (Op.put_task wid task priority) m t r = grind laws
perform-IsRegistry (Op.open_tasks wid) m t r = grind laws
perform-IsRegistry (Op.take_task wid) m t r = grind laws
perform-IsRegistry (Op.steal_task wid) m t r = steal-IsRegistry wid m r
perform-IsRegistry (Op.set_once now key value ttl) m t r =
    set_nx_ttl-IsRegistry now key value ttl m t r
perform-IsRegistry Op.flush m t r = flush_all-IsRegistry m
perform-IsRegistry op m t r = record {
  paired = λ k. ground (arith, r.paired k);
  queued = λ k h. ground (arith, r.queued k);
}
