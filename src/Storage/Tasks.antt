-- ===== src/Storage/Tasks.antt =====
-- storage/memory.py: the workers' queues of tasks. asyncio's `PriorityQueue` yields its least
-- tuple: it is the list of its items in that order, and the counters make the tuples differ.
pub mod Order
pub mod Stealing
use avtomatika.Prelude.{
  ℕ, ◌+◌, String, Bool, true, false, ◌&&◌, not, Option, none, some, List, [], ◌∷◌, any, str_eq, ltb,
  length, if◌then◌else◌,
}
use avtomatika.Prelude.Int.{ℤ, ltb_ℤ}
use avtomatika.Dict
use avtomatika.Dict.{Dict, get_or, has_key}
use avtomatika.Value.{Job}
use avtomatika.Storage.{Memory, Worker, Skill, Item}

-- `(-a.priority, a.counter) < (-b.priority, b.counter)`
abbrev pub before : Item → Item → Bool
before a b =
    if ltb_ℤ b.priority a.priority
    then true
    else if ltb_ℤ a.priority b.priority
    then false
    else ltb a.counter b.counter

-- `PriorityQueue.put`
unfoldable pub insert : Item → List Item → List Item
insert e [] = e ∷ []
insert e (x ∷ q) = if before e x then e ∷ (x ∷ q) else x ∷ insert e q

-- Tasks of greater priority first, and of one priority in the order of arrival.
unfoldable pub enqueue_task_for_worker : String → Job → ℤ → Memory → Memory
enqueue_task_for_worker worker_id task_payload priority m =
    let counter = m.queue_counter + 1 in
    let item : Item = record { priority = priority; counter = counter; payload = task_payload } in
    record m {
      queue_counter = counter;
      worker_task_queues =
          Dict.put worker_id (insert item (get_or worker_id [] m.worker_task_queues))
            m.worker_task_queues;
    }

abbrev take_head : String → List Item → Memory → Option Job × Memory
take_head worker_id [] m = (none, m)
take_head worker_id (item ∷ q) m =
    (some item.payload, record m { worker_task_queues = Dict.put worker_id q m.worker_task_queues })

-- `queue.get_nowait()`
unfoldable pub receive : String → Memory → Option Job × Memory
receive worker_id m = take_head worker_id (get_or worker_id [] m.worker_task_queues) m

-- `skill.get("name") or skill.get("type")`, if that is not empty
unfoldable pub skill_label : Skill → Option String
skill_label skill = elim skill.name [
  | none ↦ skill.kind
  | some s ↦ if str_eq s "" then skill.kind else some s
]

abbrev pub is_label : String → Option String → Bool
is_label s none = false
is_label s (some t) = str_eq t s

-- Some skill of the worker has this label.
unfoldable pub supports : String → Option Worker → Bool
unfolding skill_label
supports skill_name none = false
supports skill_name (some other_info) =
    any (λ os. is_label skill_name (skill_label os)) other_info.supported_skills

-- The queue of another worker, known to the store, that has a skill with this label.
abbrev pub may_rob : Dict Worker → String → String → String → Bool
may_rob workers worker_id skill_name wid =
    not (str_eq wid worker_id) && supports skill_name (Dict.get wid workers)

-- The loop over the queues: the first of the longest ones that the worker may steal from.
unfoldable pub longest :
    Dict Worker → String → String → Dict (List Item) → ℕ → Option String → Option String
longest workers worker_id skill_name [] max_len best = best
longest workers worker_id skill_name ((wid, q) ∷ queues) max_len best =
    let better = may_rob workers worker_id skill_name wid && ltb max_len (length q) in
    longest workers worker_id skill_name queues (if better then length q else max_len)
      (if better then some wid else best)

-- What the loop over the skills takes for one skill: an empty label or an empty id is passed over.
unfoldable pub victim_for : String → Option String → Memory → Option String
unfolding longest supports
victim_for worker_id none m = none
victim_for worker_id (some skill_name) m =
    if str_eq skill_name ""
    then none
    else elim (longest m.workers worker_id skill_name m.worker_task_queues 0 none) [
      | none ↦ none
      | some wid ↦ if str_eq wid "" then none else some wid
    ]

-- The first victim over the worker's skills.
unfoldable pub victim : String → List Skill → Memory → Option String
unfolding victim_for skill_label
victim worker_id [] m = none
victim worker_id (skill ∷ skills) m =
    let rest = victim worker_id skills m in
    elim (victim_for worker_id (skill_label skill) m) [ none ↦ rest | some wid ↦ some wid ]

-- After the time-out: a task from the longest queue of another worker with one of the skills.
unfoldable pub steal : String → Memory → Option Job × Memory
unfolding victim receive
steal worker_id m = elim (Dict.get worker_id m.workers) [
  | none ↦ (none, m)
  | some worker_info ↦ elim (victim worker_id worker_info.supported_skills m) [
    | none ↦ (none, m)
    | some wid ↦ receive wid m
  ]
]

-- `self._worker_task_queues[worker_id]`, made if missing
unfoldable pub open_queue : String → Memory → Memory
open_queue worker_id m =
    if has_key worker_id m.worker_task_queues
    then m
    else record m { worker_task_queues = Dict.put worker_id [] m.worker_task_queues }

abbrev or_steal : String → Option Job → Memory → Option Job × Memory
or_steal worker_id (some task) m = (some task, m)
or_steal worker_id none m = steal worker_id m

-- `during` is what other tasks do to the store while this one waits for its queue to fill.
unfoldable pub dequeue_task_for_worker : String → (Memory → Memory) → Memory → Option Job × Memory
unfolding receive steal open_queue
dequeue_task_for_worker worker_id during m =
    let (found, m₁) = receive worker_id (open_queue worker_id m) in
    elim found [
      | some task ↦ (some task, m₁)
      | none ↦ let (arrived, m₂) = receive worker_id (during m₁) in or_steal worker_id arrived m₂
    ]

unfoldable pub get_worker_queue_length : String → Memory → ℕ
get_worker_queue_length worker_id m = length (get_or worker_id [] m.worker_task_queues)
