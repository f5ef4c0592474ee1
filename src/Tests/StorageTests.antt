-- ===== src/Tests/StorageTests.antt =====
-- The store of storage/memory.py at concrete inputs: workers, their queues and the invariant.
use mathlib.Core.List.{Perm}
use avtomatika.Prelude.{
  ◌++◌, map, length, ◌≤◌, ◌+◌, ◌≡◌, ◌⊎◌, refl, String, false, none, some, List, [], ◌∷◌,
  if◌then◌else◌,
}
use avtomatika.Prelude.Int.{ℤ, pos}
use avtomatika.Dict.{get, put, keys_where}
use avtomatika.Value.{null, text, Job}
use avtomatika.Storage.{Memory, Worker, Skill, plain, Item, empty}
use avtomatika.Storage.Operations.{Op, perform, perform_all}
use avtomatika.Storage.Invariant.Run.{IsValid, empty-IsValid, perform_all-IsValid}
use avtomatika.Storage.Workers.{register_worker, clean_expired, find_workers_for_skill}
use avtomatika.Storage.Workers.Expiry.{live_value, is_past, clean_expired_lem}
use avtomatika.Storage.Workers.Load.{
  dispatched, finished, load_of, record_events, tally, dispatches, results, record_events-tally,
}
use avtomatika.Storage.Tasks.{insert, enqueue_task_for_worker, receive, steal}
use avtomatika.Storage.Tasks.Order.{
  IsOrdered, queue_of, receive_all, enqueue_all, numbered_from, receive_all-enqueue_all,
}
use avtomatika.Storage.Tasks.Stealing.{Stolen, NotStolen, steal_lem}

abbrev render : Skill
render = record {
  name = some "render";
  kind = none;
  version = null;
  properties = [];
  input_schema = null;
  output_schema = null;
  events_schema = [];
  schema_dialect = "json-schema";
  output_statuses = [];
}

abbrev worker : String → Worker
worker id = record {
  worker_id = id;
  status = none;
  supported_skills = render ∷ [];
  hot_skills = plain "render" ∷ [];
  reputation = none;
  internal_load = none;
  cost_per_skill = [];
  websockets = false;
  skills_hash = none;
  resources = null;
  installed_artifacts = [];
  installed_software = [];
  extra = [];
}

abbrev task : String → Job
task id = ("task_id", text id) ∷ []

-- Two workers with one skill; the second has two tasks.
abbrev script : List Op
script =
    Op.register 0 "a" (worker "a") 60
    ∷ Op.register 0 "b" (worker "b") 60
    ∷ Op.put_task "b" (task "t-1") (pos 0)
    ∷ Op.put_task "b" (task "t-2") (pos 5)
    ∷ []

abbrev store : Memory
store = perform_all script empty

abbrev store-IsValid : IsValid store
store-IsValid = perform_all-IsValid script empty empty-IsValid

perform_all-IsValid_example : IsValid (perform_all script empty)
perform_all-IsValid_example = perform_all-IsValid script empty empty-IsValid

-- The task of greater priority comes first.
receive_runs : (receive "b" store).0 ≡ some (task "t-2")
unfolding receive perform_all perform register_worker enqueue_task_for_worker insert get put
receive_runs = refl

-- A worker with nothing to do steals it.
steal_runs : (steal "a" store).0 ≡ some (task "t-2")
unfolding steal perform_all perform register_worker enqueue_task_for_worker insert get put
steal_runs = refl

abbrev tasks : List (Job × ℤ)
tasks = (task "t-3", pos 1) ∷ (task "t-4", pos 9) ∷ (task "t-5", pos 1) ∷ []

receive_all-enqueue_all_example :
    let m' = enqueue_all "b" tasks store in
    (items : List Item) × Perm items (numbered_from store.queue_counter tasks ++ queue_of "b" store)
    × IsOrdered items
    × (receive_all (length tasks + length (queue_of "b" store)) "b" m'
        ≡ map (λ x. some x.payload) items)
receive_all-enqueue_all_example =
    receive_all-enqueue_all "b" tasks store (store-IsValid.queues.at "b")

steal_lem_example :
    NotStolen "a" store (record (worker "a") { reputation = some 10000 }) (steal "a" store)
    ⊎ Stolen "a" store (record (worker "a") { reputation = some 10000 }) (steal "a" store)
unfolding perform_all perform register_worker enqueue_task_for_worker insert get put
steal_lem_example =
    steal_lem "a" store (refl, (refl, tt)) refl (record (worker "a") { reputation = some 10000 })
      refl

finding_runs : find_workers_for_skill 1000 "render" store ≡ "a" ∷ "b" ∷ []
unfolding find_workers_for_skill keys_where perform_all perform register_worker
    enqueue_task_for_worker insert get put
finding_runs = refl

clean_expired_lem_example :
    let m' = clean_expired 70000 store in
    (get "a" m'.generic_keys ≡ live_value 70000 "a" store)
    × (get "a" m'.workers
        ≡ (if is_past 70000 (get "a" store.worker_ttls) then none else get "a" store.workers))
    × (get "a" m'.worker_ttls
        ≡ (if is_past 70000 (get "a" store.worker_ttls) then none else get "a" store.worker_ttls))
    × (get "a" m'.generic_key_ttls ≡ (
        if is_past 70000 (get "a" store.generic_key_ttls)
        then none
        else get "a" store.generic_key_ttls))
    × (m'.worker_task_queues ≡ store.worker_task_queues)
    × (m'.jobs ≡ store.jobs)
    × (m'.job_queue ≡ store.job_queue)
    × (m'.quarantine_queue ≡ store.quarantine_queue)
    × (m'.watched_jobs ≡ store.watched_jobs)
    × (m'.client_configs ≡ store.client_configs)
    × (m'.quotas ≡ store.quotas)
    × (m'.worker_tokens ≡ store.worker_tokens)
    × (m'.locks ≡ store.locks)
    × (m'.queue_counter ≡ store.queue_counter)
clean_expired_lem_example =
    clean_expired_lem 70000 store store-IsValid.tidy.generic_key_ttls store-IsValid.tidy.worker_ttls
      "a"

record_events-tally_example :
    let es = dispatched "a" ∷ finished "b" ∷ dispatched "a" ∷ [] in
    (load_of (get "a" (record_events es store).workers) ≡ some (pos (tally "a" es 0)))
    × (tally "a" es 0 ≤ 0 + dispatches "a" es)
    × (0 + dispatches "a" es ≤ tally "a" es 0 + results "a" es)
unfolding perform_all perform register_worker enqueue_task_for_worker get put
record_events-tally_example =
    record_events-tally (dispatched "a" ∷ finished "b" ∷ dispatched "a" ∷ []) "a" 0 store refl
