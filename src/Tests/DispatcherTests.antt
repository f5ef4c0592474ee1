-- ===== src/Tests/DispatcherTests.antt =====
-- The choice of a worker by dispatcher.py at concrete inputs.
use avtomatika.Prelude.{ℕ, ◌≡◌, refl, false, String, some, none, List, [], ◌∷◌}
use avtomatika.Prelude.Int.{pos}
use avtomatika.Dict.{get}
use avtomatika.Value.{null, num}
use avtomatika.Storage.{Worker, Item, Memory, empty}
use avtomatika.Storage.Tasks.{get_worker_queue_length}
use avtomatika.Dispatcher.{select_overflow, least_busy, first_free, sorted, place}
use avtomatika.Dispatcher.Rounds.{selections, around, selections-around, counter_key}

abbrev worker : String → ℕ → ℕ → Worker
worker wid cost load = record {
  worker_id = wid;
  status = none;
  supported_skills = [];
  hot_skills = [];
  reputation = none;
  internal_load = some (pos load);
  cost_per_skill = ("render", cost) ∷ [];
  websockets = false;
  skills_hash = none;
  resources = null;
  installed_artifacts = [];
  installed_software = [];
  extra = [];
}

abbrev task : Item
task = record { priority = pos 0; counter = 1; payload = [] }

abbrev others : List Worker
others = worker "b" 3 0 ∷ worker "c" 3 2 ∷ []

-- The queue of "b" is full; "c" costs the same, and has a free one.
abbrev store : Memory
store = record empty {
  worker_task_queues = ("b", task ∷ task ∷ []) ∷ ("c", task ∷ []) ∷ [];
  generic_keys = (counter_key "render", num 4) ∷ [];
}

selections-around_example :
    selections 3 "render" (worker "a" 5 1 ∷ others) store ≡ around 3 4 (worker "a" 5 1) others
unfolding get
selections-around_example = selections-around 3 4 "render" (worker "a" 5 1) others store refl

overflow_takes_c :
    select_overflow 2 "render" (some 4) (worker "a" 5 1 ∷ others) store ≡ some (worker "c" 3 2)
unfolding select_overflow least_busy first_free sorted place get_worker_queue_length get
overflow_takes_c = refl
