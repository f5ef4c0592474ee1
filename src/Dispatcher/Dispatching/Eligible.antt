-- ===== src/Dispatcher/Dispatching/Eligible.antt =====
-- dispatcher.py: the workers that `dispatch` may choose, and that its strategies choose among them.
use mathlib.Core.List.{Mem, mem-cons_self, mem-cons_of_mem}
use avtomatika.Prelude.{
  ℕ, zero, suc, ◌+◌, ◌≡◌, refl, arith, String, Bool, true, false, Option, none, some, List, [], ◌∷◌,
  All, filter, any, not, if◌then◌else◌, get_elem?, ltb, Bool-cases, inl, inr, str_eq, leb,
}
use avtomatika.Prelude.Int.{ltb_ℤ}
use avtomatika.Dict
use avtomatika.Value.{Job}
use avtomatika.Storage.{Memory, Worker}
use avtomatika.Storage.Workers.{is_hot}
use avtomatika.Executor.{text_or_empty}
use avtomatika.Executor.Creation.{number_of}
use avtomatika.Dispatcher.{
  least_from, least, place, sorted, target_pool, cheapest_workers, select_default,
  select_round_robin, select_least_connections, select_cheapest, select_best_value, select_overflow,
  first_free, least_busy, affordable, cheaper, queue_length, load_of, better_value,
}
use avtomatika.Dispatcher.Compliance.{Matching, check_worker_compliance, compliant, is_none}
use avtomatika.Dispatcher.Dispatching.{
  DispatchConfig, requirements_of, is_affordable, is_trusted, eligible, select,
}

-- A property that the value has, if there is one.
abbrev pub Holds : (Worker → Type 0) → Option Worker → Type 0
Holds P none = Unit
Holds P (some w) = P w

module _ (P : Worker → Type 0) where
  filter-All : (p : Worker → Bool) (ws : List Worker) → All P ws → All P (filter p ws)
  filter-All p [] h = tt
  filter-All p (w ∷ ws) h = ground (arith, filter-All p ws h.1)

  least_from-All :
      (less : Worker → Worker → Bool) (best : Worker) (ws : List Worker)
      → P best
      → All P ws
      → P (least_from less best ws)
  unfolding least_from
  least_from-All less best [] b h = b
  least_from-All less best (w ∷ ws) b h = elim (Bool-cases (less w best)) [
    | inl e ↦ rw e (least_from-All less w ws h.0 h.1)
    | inr e ↦ rw e (least_from-All less best ws b h.1)
  ]

  least-Holds :
      (less : Worker → Worker → Bool) (ws : List Worker) → All P ws → Holds P (least less ws)
  unfolding least
  least-Holds less [] h = tt
  least-Holds less (w ∷ ws) h = least_from-All less w ws h.0 h.1

  place-All :
      (less : Worker → Worker → Bool) (w : Worker) (ws : List Worker)
      → P w
      → All P ws
      → All P (place less w ws)
  unfolding place
  place-All less w [] p h = (p, tt)
  place-All less w (v ∷ vs) p h = elim (Bool-cases (less v w)) [
    | inl e ↦ rw e (h.0, place-All less w vs p h.1)
    | inr e ↦ rw e (p, h)
  ]

  sorted-All :
      (less : Worker → Worker → Bool) (ws : List Worker) → All P ws → All P (sorted less ws)
  unfolding sorted
  sorted-All less [] h = tt
  sorted-All less (w ∷ ws) h = place-All less w (sorted less ws) h.0 (sorted-All less ws h.1)

  get_elem?-Holds : (ws : List Worker) (i : ℕ) → All P ws → Holds P (get_elem? ws i)
  get_elem?-Holds [] i h = tt
  get_elem?-Holds (w ∷ ws) zero h = h.0
  get_elem?-Holds (w ∷ ws) (suc i) h = get_elem?-Holds ws i h.1

  first_free-Holds :
      (queue_len : Worker → ℕ) (soft_limit : ℕ) (ws : List Worker)
      → All P ws
      → Holds P (first_free queue_len soft_limit ws)
  unfolding first_free
  first_free-Holds queue_len soft_limit [] h = tt
  first_free-Holds queue_len soft_limit (w ∷ ws) h =
      elim (Bool-cases (ltb (queue_len w) soft_limit)) [
        | inl e ↦ rw e (h.0)
        | inr e ↦ rw e (first_free-Holds queue_len soft_limit ws h.1)
      ]

  affordable-All :
      (task_type : String) (max_cost : Option ℕ) (ws : List Worker)
      → All P ws
      → All P (affordable task_type max_cost ws)
  affordable-All task_type none ws h = h
  affordable-All task_type (some max_cost) ws h = filter-All _ ws h

  least_busy-Holds :
      (queue_len : Worker → ℕ) (soft_limit : ℕ) (ws : List Worker)
      → All P ws
      → Holds P (least_busy queue_len soft_limit ws)
  unfolding least_busy
  least_busy-Holds queue_len soft_limit ws h =
      elim (first_free queue_len soft_limit ws)
          as (λ o.
            Holds P o
            → Holds P (elim o [
              | none ↦ least (λ w v. ltb (queue_len w) (queue_len v)) ws
              | some w ↦ some w
            ])) [ none ↦ λ _. least-Holds _ ws h | some w ↦ λ p. p ]
        (first_free-Holds queue_len soft_limit ws h)

  target_pool-All :
      (task_type : String) (ws : List Worker) → All P ws → All P (target_pool task_type ws)
  unfolding target_pool
  target_pool-All task_type ws h =
      let hot = filter (λ w. any (is_hot task_type) w.hot_skills) ws in
      elim hot as (λ l. All P l → All P (elim l [ [] ↦ ws | w ∷ vs ↦ w ∷ vs ])) [
        | [] ↦ λ _. h
        | w ∷ vs ↦ λ q. q
      ]
        (filter-All _ ws h)

  cheapest_workers-All :
      (task_type : String) (ws : List Worker) → All P ws → All P (cheapest_workers task_type ws)
  unfolding cheapest_workers
  cheapest_workers-All task_type ws h =
      elim (least (cheaper task_type) ws)
        as (λ o.
          All P
            (elim o [ none ↦ [] | some best ↦ filter (λ w. not (cheaper task_type best w)) ws ])) [
              | none ↦ tt
              | some best ↦ filter-All _ ws h
            ]

  select_default-Holds :
      (task_type : String) (ws : List Worker) → All P ws → Holds P (select_default task_type ws)
  unfolding select_default
  select_default-Holds task_type ws h =
      least-Holds _ (cheapest_workers task_type (target_pool task_type ws))
        (cheapest_workers-All task_type (target_pool task_type ws) (target_pool-All task_type ws h))

  select_round_robin-Holds :
      (task_type : String) (ws : List Worker) (m : Memory)
      → All P ws
      → Holds P ((select_round_robin task_type ws m).0)
  unfolding select_round_robin
  select_round_robin-Holds task_type [] m h = tt
  select_round_robin-Holds task_type (w ∷ ws) m h = get_elem?-Holds (w ∷ ws) _ h

  select_overflow-Holds :
      (soft_limit : ℕ) (task_type : String) (max_cost : Option ℕ) (ws : List Worker) (m : Memory)
      → All P ws
      → Holds P (select_overflow soft_limit task_type max_cost ws m)
  unfolding select_overflow
  select_overflow-Holds soft_limit task_type max_cost ws m h =
      let by_cost = sorted (cheaper task_type) ws in
      least_busy-Holds (queue_length m) soft_limit (affordable task_type max_cost by_cost)
        (affordable-All task_type max_cost by_cost (sorted-All (cheaper task_type) ws h))

  if-Holds :
      (b : Bool) (x y : Option Worker × Memory)
      → Holds P (x.0)
      → Holds P (y.0)
      → Holds P ((if b then x else y).0)
  if-Holds true x y p q = p
  if-Holds false x y p q = q

  if-All :
      (b c : Bool) (w : Worker) (ws : List Worker)
      → (b ≡ true → P w)
      → All P ws
      → All P (if b then (if c then w ∷ [] else w ∷ ws) else ws)
  if-All true true w ws p h = (p refl, tt)
  if-All true false w ws p h = (p refl, h)
  if-All false c w ws p h = h

All-weaken :
    (P Q : Worker → Type 0) (ws : List Worker) → ((w : Worker) → P w → Q w) → All P ws → All Q ws
All-weaken P Q [] f h = tt
All-weaken P Q (w ∷ ws) f h = (f w h.0, All-weaken P Q ws f h.1)

All-Mem : (ws : List Worker) → All (λ w. Mem w ws) ws
All-Mem [] = tt
All-Mem (w ∷ ws) = (
  mem-cons_self,
  All-weaken (λ v. Mem v ws) (λ v. Mem v (w ∷ ws)) ws (λ v h. mem-cons_of_mem w h) (All-Mem ws),
)

is_none_lem : (o : Option String) → is_none o ≡ true → o ≡ none
is_none_lem none e = refl
is_none_lem (some s) e = cc

-- The elements that pass a test keep what they had.
filter-passes :
    (P : Worker → Type 0) (p : Worker → Bool) (ws : List Worker)
    → All P ws
    → All (λ w. P w × (p w ≡ true)) (filter p ws)
filter-passes P p [] h = tt
filter-passes P p (w ∷ ws) h = elim (Bool-cases (p w)) [
  | inl e ↦ rw e ((h.0, e), filter-passes P p ws h.1)
  | inr e ↦ rw e (filter-passes P p ws h.1)
]

module _ (matching : Matching) (config : DispatchConfig)
    (cached : List String → Memory → List Worker) (uuid : ℕ → String) (injected : Job)
    (to_dict : Job → Job) where
  -- Whatever the strategy, the worker is one of those given.
  pub select-Holds :
      (P : Worker → Type 0) (strategy task_type : String) (max_cost : Option ℕ) (ws : List Worker)
      (m : Memory)
      → All P ws
      → Holds P
          ((select matching config cached uuid injected to_dict strategy task_type max_cost ws m).0)
  unfolding select select_least_connections select_cheapest select_best_value
  select-Holds P strategy task_type max_cost ws m h =
      let least_loaded = select_least_connections ws in
      let cheapest = select_cheapest task_type ws in
      let best = select_best_value task_type ws in
      let overflow = select_overflow config.soft_limit task_type max_cost ws m in
      let otherwise = select_default task_type ws in
      let s₅ = if str_eq strategy "overflow" then (overflow, m) else (otherwise, m) in
      let s₄ = if str_eq strategy "best_value" then (best, m) else s₅ in
      let s₃ = if str_eq strategy "cheapest" then (cheapest, m) else s₄ in
      let s₂ = if str_eq strategy "least_connections" then (least_loaded, m) else s₃ in
      if-Holds P (str_eq strategy "round_robin") (select_round_robin task_type ws m) s₂
        (select_round_robin-Holds P task_type ws m h)
        (if-Holds P (str_eq strategy "least_connections") (least_loaded, m) s₃
          (least-Holds P (λ w v. ltb_ℤ (load_of w) (load_of v)) ws h)
          (if-Holds P (str_eq strategy "cheapest") (cheapest, m) s₄
            (least-Holds P (cheaper task_type) ws h)
            (if-Holds P (str_eq strategy "best_value") (best, m) s₅
              (least-Holds P (better_value task_type) ws h)
              (if-Holds P (str_eq strategy "overflow") (overflow, m) (otherwise, m)
                (select_overflow-Holds P config.soft_limit task_type max_cost ws m h)
                (select_default-Holds P task_type ws h)))))

  -- The worker is a candidate, complies, costs no more than is allowed, and is trusted.
  abbrev pub Chosen : List Worker → Job → Job → Worker → Type 0
  Chosen candidates task_info job w =
      let task_type = text_or_empty (Dict.get "type" task_info) in
      ((Mem w candidates
          × (check_worker_compliance matching task_type (requirements_of task_info job) w ≡ none))
        × (is_affordable task_type (number_of (Dict.get "max_cost" task_info)) w ≡ true))
      × (is_trusted config.min_reputation w ≡ true)

  compliant-All :
      (P : Worker → Type 0) (max_candidates : ℕ) (task_type : String) (requirements : Job)
      (count : ℕ) (ws : List Worker)
      → All P ws
      → All
          (λ w. P w × (check_worker_compliance matching task_type requirements w ≡ none))
          (compliant matching max_candidates task_type requirements count ws)
  unfolding compliant
  compliant-All P max_candidates task_type requirements count [] h = tt
  compliant-All P max_candidates task_type requirements count (w ∷ ws) h =
      let passes = is_none (check_worker_compliance matching task_type requirements w) in
      if-All (λ v. P v × (check_worker_compliance matching task_type requirements v ≡ none)) passes
        (leb max_candidates (count + 1)) w _
        (λ e. (h.0, is_none_lem (check_worker_compliance matching task_type requirements w) e))
        (compliant-All P max_candidates task_type requirements (if passes then count + 1 else count)
          ws h.1)

  pub eligible-All :
      (task_info job : Job) (ws : List Worker)
      → All (Chosen ws task_info job) (
          eligible matching config cached uuid injected to_dict
            (text_or_empty (Dict.get "type" task_info))
            task_info
            job
            ws)
  unfolding eligible
  eligible-All task_info job ws =
      let task_type = text_or_empty (Dict.get "type" task_info) in
      filter-passes _ (is_trusted config.min_reputation) _ (
        filter-passes _ (is_affordable task_type (number_of (Dict.get "max_cost" task_info))) _ (
          compliant-All (λ w. Mem w ws) config.max_candidates task_type
            (requirements_of task_info job) 0 ws (All-Mem ws)))
