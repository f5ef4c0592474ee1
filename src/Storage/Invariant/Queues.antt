-- ===== src/Storage/Invariant/Queues.antt =====
-- storage/memory.py: every worker's queue of tasks stays in order.
use avtomatika.Prelude.{
  ℕ, ◌+◌, ◌≡◌, ◌⊎◌, inl, inr, refl, String, true, false, List, [], ◌∷◌, arith, str_eq, eq_iff,
  Bool-cases, if◌then◌else◌,
}
use avtomatika.Prelude.Int.{ℤ}
use avtomatika.Dict.{get, get-put, get-pop}
use avtomatika.Value.{Job}
use avtomatika.Storage.{Memory, Worker, Item}
use avtomatika.Storage.Jobs.{
  save_job_state, update_job_state, update_job_state_atomic, enqueue_job, dequeue_job,
  quarantine_job,
}
use avtomatika.Storage.Workers.{
  register_worker, deregister_worker, refresh_worker_ttl, update_worker_data, update_worker_status,
  increment_worker_load, decrement_worker_load, clean_expired,
}
use avtomatika.Storage.Tasks.{enqueue_task_for_worker, open_queue, receive, steal}
use avtomatika.Storage.Tasks.Order.{
  IsQueue, IsNumbered-mono, insert-IsQueue, queue_of, queue_of-enqueue,
}
use avtomatika.Storage.Watch.{add_job_to_watch, remove_job_from_watch, get_timed_out_jobs}
use avtomatika.Storage.Keys.{
  increment_key_with_ttl, increment_key, set_nx_ttl, set_str, save_blueprint_contract,
  set_task_cancellation_flag,
}
use avtomatika.Storage.Locks.{acquire_lock, release_lock}
use avtomatika.Storage.Tokens.{
  set_worker_token, save_worker_access_token, save_worker_refresh_token,
}
use avtomatika.Storage.Quotas.{
  save_client_config, initialize_client_quota, check_and_decrement_quota,
}
use avtomatika.Storage.Reset.{flush_all}
use avtomatika.Storage.Operations.{Op, perform}

-- Every queue is in order, with counters up to the store's.
pub record AreQueues (m : Memory) : Type 0 where
  pub at : (k : String) → IsQueue m.queue_counter (queue_of k m)

-- A call that leaves the counter alone, and each queue as it was or empty.
record Spares (m m' : Memory) : Type 0 where
  counter : m'.queue_counter ≡ m.queue_counter
  queue : (k : String) → (queue_of k m' ≡ queue_of k m) ⊎ (queue_of k m' ≡ [])

spared : (m m' : Memory) → Spares m m' → AreQueues m → AreQueues m'
spared m m' s q = record { at = λ k. kept k (s.queue k) }
  where
    kept :
        (k : String)
        → (queue_of k m' ≡ queue_of k m) ⊎ (queue_of k m' ≡ [])
        → IsQueue m'.queue_counter (queue_of k m')
    kept k (inl e) = rw (e, s.counter) (q.at k)
    kept k (inr e) = rw e (record { ordered = tt; numbered = tt })

enqueue-AreQueues :
    (wid : String) (task : Job) (priority : ℤ) (m : Memory)
    → AreQueues m
    → AreQueues (enqueue_task_for_worker wid task priority m)
enqueue-AreQueues wid task priority m q = record { at = λ k. placed k (Bool-cases (str_eq wid k)) }
  where
    placed :
        (k : String)
        → (str_eq wid k ≡ true) ⊎ (str_eq wid k ≡ false)
        → IsQueue
            (enqueue_task_for_worker wid task priority m).queue_counter
            (queue_of k (enqueue_task_for_worker wid task priority m))
    placed k (inl e) =
        rw (queue_of-enqueue, e)
          (unfold enqueue_task_for_worker in insert-IsQueue m.queue_counter _ _ refl (q.at wid))
    placed k (inr e) =
        let at = q.at k in
        rw (queue_of-enqueue, e)
          (unfold enqueue_task_for_worker in
            record {
              ordered = at.ordered;
              numbered =
                  IsNumbered-mono m.queue_counter (m.queue_counter + 1) (queue_of k m) (omega arith)
                    at.numbered;
            })

abbrev drop_head : List Item → List Item
drop_head [] = []
drop_head (x ∷ q) = q

queue_of-receive :
    (wid k : String) (m : Memory) (q : List Item)
    → queue_of wid m ≡ q
    → queue_of k (receive wid m).1 ≡ (if str_eq wid k then drop_head q else queue_of k m)
unfolding queue_of receive
queue_of-receive wid k m [] e = ground (arith, e, eq_iff wid k)
queue_of-receive wid k m (x ∷ q) e = ground (arith, e, get-put wid k q m.worker_task_queues)

counter-receive : (wid : String) (m : Memory) → (receive wid m).1.queue_counter ≡ m.queue_counter
unfolding receive
counter-receive wid m = ground arith

drop_head-IsQueue : (n : ℕ) (q : List Item) → IsQueue n q → IsQueue n (drop_head q)
drop_head-IsQueue n [] v = v
drop_head-IsQueue n (x ∷ q) v =
    let o = v.ordered in let k = v.numbered in record { ordered = o.1; numbered = k.1 }

receive-AreQueues : (wid : String) (m : Memory) → AreQueues m → AreQueues (receive wid m).1
receive-AreQueues wid m q = record { at = λ k. rest k (Bool-cases (str_eq wid k)) }
  where
    rest :
        (k : String)
        → (str_eq wid k ≡ true) ⊎ (str_eq wid k ≡ false)
        → IsQueue (receive wid m).1.queue_counter (queue_of k (receive wid m).1)
    rest k (inl e) =
        rw (queue_of-receive wid k m (queue_of wid m) refl, e, counter-receive)
          (drop_head-IsQueue m.queue_counter (queue_of wid m) (q.at wid))
    rest k (inr e) =
        rw (queue_of-receive wid k m (queue_of wid m) refl, e, counter-receive) (q.at k)

steal-AreQueues : (wid : String) (m : Memory) → AreQueues m → AreQueues (steal wid m).1
unfolding steal
steal-AreQueues wid m q = grind (arith, receive-AreQueues)

register-Spares :
    (now : ℕ) (wid : String) (info : Worker) (ttl : ℕ) (m : Memory)
    → Spares m (register_worker now wid info ttl m)
unfolding register_worker queue_of
register-Spares now wid info ttl m = record {
  counter = refl;
  queue = λ k. ground (arith, get-put wid k [] m.worker_task_queues, eq_iff wid k);
}

deregister-Spares : (wid : String) (m : Memory) → Spares m (deregister_worker wid m)
unfolding deregister_worker queue_of
deregister-Spares wid m = record {
  counter = refl;
  queue = λ k. ground (arith, get-pop wid k m.worker_task_queues);
}

open_queue-Spares : (wid : String) (m : Memory) → Spares m (open_queue wid m)
unfolding open_queue queue_of
open_queue-Spares wid m = record {
  counter = ground arith;
  queue = λ k. ground (arith, get-put wid k [] m.worker_task_queues, eq_iff wid k);
}

flush_all-Spares : (m : Memory) → Spares m (flush_all m)
unfolding flush_all queue_of get
flush_all-Spares m = record { counter = refl; queue = λ k. inr refl }

pub perform-AreQueues : (op : Op) (m : Memory) → AreQueues m → AreQueues (perform op m)
unfolding perform save_job_state update_job_state update_job_state_atomic enqueue_job dequeue_job
    quarantine_job refresh_worker_ttl update_worker_data update_worker_status increment_worker_load
    decrement_worker_load clean_expired add_job_to_watch remove_job_from_watch get_timed_out_jobs
    increment_key_with_ttl increment_key set_nx_ttl set_str set_task_cancellation_flag
    save_blueprint_contract acquire_lock release_lock set_worker_token save_worker_access_token
    save_worker_refresh_token save_client_config initialize_client_quota check_and_decrement_quota
    queue_of
perform-AreQueues (Op.register now wid info ttl) m q =
    spared m _ (register-Spares now wid info ttl m) q
perform-AreQueues (Op.deregister wid) m q = spared m _ (deregister-Spares wid m) q
perform-AreQueues (Op.put_task wid task priority) m q = enqueue-AreQueues wid task priority m q
perform-AreQueues (Op.open_tasks wid) m q = spared m _ (open_queue-Spares wid m) q
perform-AreQueues (Op.take_task wid) m q = receive-AreQueues wid m q
perform-AreQueues (Op.steal_task wid) m q = steal-AreQueues wid m q
perform-AreQueues Op.flush m q = spared m _ (flush_all-Spares m) q
perform-AreQueues op m q =
    spared m _ (record { counter = ground arith; queue = λ k. inl (ground arith) }) q
