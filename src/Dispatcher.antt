-- ===== src/Dispatcher.antt =====
-- dispatcher.py: `Dispatcher`, the strategies that choose a worker for a task. Costs and reputations
-- are whole numbers of their units; a cost that a worker does not name is infinite.
pub mod Choice
pub mod Rounds
pub mod Compliance
pub mod Dispatching
use Prim.Native.String.{◌++◌ as str_append}
use avtomatika.Prelude.{
  ℕ, ◌+◌, ◌*◌, ◌%◌, String, Bool, true, false, Option, none, some, List, [], ◌∷◌, ◌++◌, filter, any,
  not, length, get_elem?, str_eq, ltb, leb, if◌then◌else◌, suc,
}
use avtomatika.Prelude.Int.{ℤ, pos, ltb_ℤ}
use avtomatika.Dict
use avtomatika.Storage.{Memory, Worker}
use avtomatika.Storage.Workers.{full_reputation, is_hot, or_else}
use avtomatika.Storage.Tasks.{get_worker_queue_length}
use avtomatika.Storage.Keys.{increment_key}

-- `float("inf")` is `none`.
abbrev pub below : Option ℕ → Option ℕ → Bool
below none b = false
below (some m) none = true
below (some m) (some n) = ltb m n

abbrev pub cost_of : String → Worker → Option ℕ
cost_of task_type w = Dict.get task_type w.cost_per_skill

abbrev reputation_of : Worker → ℕ
reputation_of w = or_else w.reputation full_reputation

abbrev pub load_of : Worker → ℤ
load_of w = or_else w.internal_load (pos 0)

-- Python's `min` by an order: the first of the least. `none` is the `ValueError` of an empty list.
module _ {A : Type 0} (less : A → A → Bool) where
  unfoldable pub least_from : A → List A → A
  least_from best [] = best
  least_from best (w ∷ ws) = if less w best then least_from w ws else least_from best ws

  unfoldable pub least : List A → Option A
  least [] = none
  least (w ∷ ws) = some (least_from w ws)

  -- Python's `sorted`, which is stable
  unfoldable pub place : A → List A → List A
  place w [] = w ∷ []
  place w (v ∷ vs) = if less v w then v ∷ place w vs else w ∷ (v ∷ vs)

  unfoldable pub sorted : List A → List A
  unfolding place
  sorted [] = []
  sorted (w ∷ ws) = place w (sorted ws)

abbrev pub cheaper : String → Worker → Worker → Bool
cheaper task_type w v = below (cost_of task_type w) (cost_of task_type v)

unfoldable pub select_cheapest : String → List Worker → Option Worker
select_cheapest task_type workers = least (cheaper task_type) workers

unfoldable pub select_least_connections : List Worker → Option Worker
select_least_connections workers = least (λ w v. ltb_ℤ (load_of w) (load_of v)) workers

-- Workers that have the skill hot, if there are any, then the cheapest of them, then the one of the
-- best reputation.
unfoldable pub target_pool : String → List Worker → List Worker
target_pool task_type workers = elim (filter (λ w. any (is_hot task_type) w.hot_skills) workers) [
  | [] ↦ workers
  | w ∷ hot ↦ w ∷ hot
]

unfoldable pub cheapest_workers : String → List Worker → List Worker
unfolding least
cheapest_workers task_type pool = elim (least (cheaper task_type) pool) [
  | none ↦ []
  | some best ↦ filter (λ w. not (cheaper task_type best w)) pool
]

unfoldable pub select_default : String → List Worker → Option Worker
unfolding target_pool cheapest_workers
select_default task_type workers =
    least (λ w v. ltb (reputation_of v) (reputation_of w))
      (cheapest_workers task_type (target_pool task_type workers))

-- The order of the scores cost / reputation, where a reputation of 0 makes the score infinite; the
-- quotients are compared as fractions, where the code rounds them.
abbrev pub better_value : String → Worker → Worker → Bool
better_value task_type w v =
    if ltb 0 (reputation_of w)
    then elim (cost_of task_type w) [
      | none ↦ false
      | some m ↦
          if ltb 0 (reputation_of v)
          then elim (cost_of task_type v) [
            | none ↦ true
            | some n ↦ ltb (m * reputation_of v) (n * reputation_of w)
          ]
          else true
    ]
    else false

unfoldable pub select_best_value : String → List Worker → Option Worker
select_best_value task_type workers = least (better_value task_type) workers

-- `workers[idx % len(workers)]` by a counter in the store; `none` is the error of an empty list.
unfoldable pub select_round_robin : String → List Worker → Memory → Option Worker × Memory
select_round_robin task_type [] m =
    (none, (increment_key (str_append "orchestrator:dispatcher:round_robin:" task_type) m).1)
select_round_robin task_type (w ∷ ws) m =
    let (idx, m') = increment_key (str_append "orchestrator:dispatcher:round_robin:" task_type) m in
    (get_elem? (w ∷ ws) (idx % suc (length ws)), m')

-- The first worker whose queue is below the limit.
unfoldable pub first_free : (Worker → ℕ) → ℕ → List Worker → Option Worker
first_free queue_len soft_limit [] = none
first_free queue_len soft_limit (w ∷ ws) =
    let rest = first_free queue_len soft_limit ws in
    if ltb (queue_len w) soft_limit then some w else rest

abbrev pub affordable : String → Option ℕ → List Worker → List Worker
affordable task_type none workers = workers
affordable task_type (some max_cost) workers =
    filter (λ w. not (below (some max_cost) (cost_of task_type w))) workers

-- The first free worker, else the first of those with the shortest queue.
unfoldable pub least_busy : (Worker → ℕ) → ℕ → List Worker → Option Worker
least_busy queue_len soft_limit candidates = elim (first_free queue_len soft_limit candidates) [
  | some w ↦ some w
  | none ↦ least (λ w v. ltb (queue_len w) (queue_len v)) candidates
]

-- The workers by cost, those within the maximum cost.
abbrev pub candidates_of : String → Option ℕ → List Worker → List Worker
candidates_of task_type max_cost workers =
    affordable task_type max_cost (sorted (cheaper task_type) workers)

abbrev pub queue_length : Memory → Worker → ℕ
queue_length m w = get_worker_queue_length w.worker_id m

-- `none` is the `RuntimeError` where no worker meets the maximum cost.
unfoldable pub select_overflow : ℕ → String → Option ℕ → List Worker → Memory → Option Worker
select_overflow soft_limit task_type max_cost workers m =
    least_busy (queue_length m) soft_limit (candidates_of task_type max_cost workers)
