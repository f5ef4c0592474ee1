-- ===== src/Storage/Workers/Load.antt =====
-- storage/memory.py: the optimistic count of a worker's tasks.
use avtomatika.Prelude.{
  ℕ, ◌+◌, ◌-◌, ◌≤◌, ◌≡◌, refl, String, Option, none, some, List, [], ◌∷◌, arith, str_eq, eq_iff,
  if◌then◌else◌,
}
use avtomatika.Prelude.Int.{ℤ, pos, suc_ℤ, pred_ℤ}
use avtomatika.Dict.{get, get-put}
use avtomatika.Storage.{Memory, Worker}
use avtomatika.Storage.Workers.{or_else, increment_worker_load, decrement_worker_load}

-- The load of a worker that the store knows.
abbrev pub load_of : Option Worker → Option ℤ
load_of none = none
load_of (some w) = some (or_else w.internal_load (pos 0))

-- A task that is given to a worker, or one whose result has arrived.
pub data Event : Type 0 where
  dispatched finished : String → Event

unfoldable pub record_event : Event → Memory → Memory
unfolding increment_worker_load decrement_worker_load
record_event (dispatched wid) m = increment_worker_load wid m
record_event (finished wid) m = decrement_worker_load wid m

unfoldable pub record_events : List Event → Memory → Memory
record_events [] m = m
record_events (e ∷ es) m = record_events es (record_event e m)

-- The count of one worker alone: up for a task, down to 0 at least for a result.
unfoldable pub tally : String → List Event → ℕ → ℕ
tally wid [] n = n
tally wid (dispatched w ∷ es) n = tally wid es (if str_eq w wid then n + 1 else n)
tally wid (finished w ∷ es) n = tally wid es (if str_eq w wid then n - 1 else n)

-- The tasks given to the worker, and its results.
unfoldable pub dispatches : String → List Event → ℕ
dispatches wid [] = 0
dispatches wid (dispatched w ∷ es) =
    let rest = dispatches wid es in if str_eq w wid then rest + 1 else rest
dispatches wid (finished w ∷ es) = dispatches wid es

unfoldable pub results : String → List Event → ℕ
results wid [] = 0
results wid (dispatched w ∷ es) = results wid es
results wid (finished w ∷ es) = let rest = results wid es in if str_eq w wid then rest + 1 else rest

-- A worker whose load is `n` has one more after a task, and one less after a result, if it had any.
increment_lem :
    (w wid : String) (n : ℕ) (m : Memory) (found : Option Worker)
    → get w m.workers ≡ found
    → load_of (get wid m.workers) ≡ some (pos n)
    → load_of (get wid (increment_worker_load w m).workers)
      ≡ some (pos (if str_eq w wid then n + 1 else n))
unfolding increment_worker_load
increment_lem w wid n m none e h = ground (arith, e, eq_iff w wid)
increment_lem w wid n m (some i) e h =
    let i' : Worker = record i { internal_load = some (suc_ℤ (or_else i.internal_load (pos 0))) } in
    ground (arith, e, get-put w wid i' m.workers, eq_iff w wid)

decrement_lem :
    (w wid : String) (n : ℕ) (m : Memory) (found : Option Worker)
    → get w m.workers ≡ found
    → load_of (get wid m.workers) ≡ some (pos n)
    → load_of (get wid (decrement_worker_load w m).workers)
      ≡ some (pos (if str_eq w wid then n - 1 else n))
unfolding decrement_worker_load
decrement_lem w wid n m none e h = ground (arith, e, eq_iff w wid)
decrement_lem w wid n m (some i) e h =
    let i' : Worker = record i {
      internal_load = some (pred_ℤ (or_else i.internal_load (pos 0)));
    } in
    ground (arith, e, get-put w wid i' m.workers, eq_iff w wid)

load-tally :
    (es : List Event) (wid : String) (n : ℕ) (m : Memory)
    → load_of (get wid m.workers) ≡ some (pos n)
    → load_of (get wid (record_events es m).workers) ≡ some (pos (tally wid es n))
unfolding record_events record_event tally
load-tally [] wid n m h = h
load-tally (dispatched w ∷ es) wid n m h =
    load-tally es wid (if str_eq w wid then n + 1 else n) (increment_worker_load w m)
      (increment_lem w wid n m (get w m.workers) refl h)
load-tally (finished w ∷ es) wid n m h =
    load-tally es wid (if str_eq w wid then n - 1 else n) (decrement_worker_load w m)
      (decrement_lem w wid n m (get w m.workers) refl h)

tally-bounds :
    (wid : String) (es : List Event) (n : ℕ)
    → (n + dispatches wid es ≤ tally wid es n + results wid es)
      × (tally wid es n ≤ n + dispatches wid es)
unfolding tally dispatches results
tally-bounds wid [] n = ground arith
tally-bounds wid (dispatched w ∷ es) n =
    ground (arith, tally-bounds wid es (if str_eq w wid then n + 1 else n))
tally-bounds wid (finished w ∷ es) n =
    ground (arith, tally-bounds wid es (if str_eq w wid then n - 1 else n))

-- After any sequence of dispatches and results, of this worker and of others, a worker that the
-- store knows with a load that is not negative is still known, and its load, an integer, is not
-- negative: it goes one up for each of its own dispatches and one down for each of its own results
-- but from 0. So it is at most the first load with all the dispatches, and it falls short of that by
-- no more than the number of the results.
pub record_events-tally :
    (es : List Event) (wid : String) (n : ℕ) (m : Memory)
    → load_of (get wid m.workers) ≡ some (pos n)
    → (load_of (get wid (record_events es m).workers) ≡ some (pos (tally wid es n)))
      × (tally wid es n ≤ n + dispatches wid es)
      × (n + dispatches wid es ≤ tally wid es n + results wid es)
record_events-tally es wid n m h =
    let (below, above) = tally-bounds wid es n in (load-tally es wid n m h, above, below)
