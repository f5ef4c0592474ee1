-- ===== src/Dispatcher/Rounds.antt =====
-- dispatcher.py: the rounds of the strategy "round_robin", and the limits of "overflow".
use Prim.Native.String.{◌++◌ as str_append}
use avtomatika.Prelude.{
  ℕ, zero, suc, ◌+◌, ◌%◌, ◌≡◌, refl, ap, String, true, false, Option, none, some, List, [], ◌∷◌,
  ◌++◌, All, arith, length, get_elem?, ltb, Bool-cases, Option-cases, inl, inr, ◌⊎◌,
}
use mathlib.Core.Path.{subst}
use avtomatika.Dict
use avtomatika.Dict.{get-put_self}
use avtomatika.Value.{num}
use avtomatika.Storage.{Memory, Worker}
use avtomatika.Storage.Keys.{increment_key}
use avtomatika.Dispatcher.{
  select_round_robin, first_free, least_busy, least, queue_length, candidates_of, select_overflow,
}
use avtomatika.Dispatcher.Choice.{IsFirst, least_lem}

-- The key of the counter of a skill.
abbrev pub counter_key : String → String
counter_key task_type = str_append "orchestrator:dispatcher:round_robin:" task_type

-- The workers that `n` selections take, one after the other.
unfoldable pub selections : ℕ → String → List Worker → Memory → List (Option Worker)
selections zero task_type workers m = []
selections (suc n) task_type workers m =
    let (selected, m') = select_round_robin task_type workers m in
    selected ∷ selections n task_type workers m'

-- The workers at the places `c + 1`, `c + 2`, …, counted around the list.
unfoldable pub around : ℕ → ℕ → Worker → List Worker → List (Option Worker)
around zero c w ws = []
around (suc n) c w ws = get_elem? (w ∷ ws) ((c + 1) % suc (length ws)) ∷ around n (c + 1) w ws

-- Where the counter of the skill stands at `c`, the next selections go around the list of workers,
-- one place further each time, from the place after `c`.
pub selections-around :
    (n c : ℕ) (task_type : String) (w : Worker) (ws : List Worker) (m : Memory)
    → Dict.get (counter_key task_type) m.generic_keys ≡ some (num c)
    → selections n task_type (w ∷ ws) m ≡ around n c w ws
unfolding selections around select_round_robin increment_key
selections-around zero c task_type w ws m h = refl
selections-around (suc n) c task_type w ws m h =
    let m' = record m {
      generic_keys = Dict.put (counter_key task_type) (num (c + 1)) m.generic_keys;
    } in
    rw (h) (
      ap (λ (rest : List (Option Worker)). get_elem? (w ∷ ws) ((c + 1) % suc (length ws)) ∷ rest)
        (selections-around n (c + 1) task_type w ws m'
          (get-put_self (counter_key task_type) (num (c + 1)) m.generic_keys)))

-- The worker stands in the list where it is taken, the ones before it have full queues, and its own
-- is below the limit.
abbrev IsFirstFree : (Worker → ℕ) → ℕ → List Worker → Option Worker → Type 0
IsFirstFree queue_len soft_limit ws none = All (λ w. ltb (queue_len w) soft_limit ≡ false) ws
IsFirstFree queue_len soft_limit ws (some w) =
    (before : List Worker) × (after : List Worker) × (ws ≡ before ++ w ∷ after)
    × All (λ v. ltb (queue_len v) soft_limit ≡ false) before
    × (ltb (queue_len w) soft_limit ≡ true)

one_more :
    (queue_len : Worker → ℕ) (soft_limit : ℕ) (w : Worker) (ws : List Worker)
    (found : Option Worker)
    → ltb (queue_len w) soft_limit ≡ false
    → IsFirstFree queue_len soft_limit ws found
    → IsFirstFree queue_len soft_limit (w ∷ ws) found
one_more queue_len soft_limit w ws none full rest = (full, rest)
one_more queue_len soft_limit w ws (some v) full (before, after, e, all_full, free) =
    (w ∷ before, after, ap (λ (l : List Worker). w ∷ l) e, (full, all_full), free)

first_free_lem :
    (queue_len : Worker → ℕ) (soft_limit : ℕ) (ws : List Worker)
    → IsFirstFree queue_len soft_limit ws (first_free queue_len soft_limit ws)
unfolding first_free
first_free_lem queue_len soft_limit [] = tt
first_free_lem queue_len soft_limit (w ∷ ws) = elim (Bool-cases (ltb (queue_len w) soft_limit)) [
  | inl free ↦ rw (free) ([], ws, refl, tt, free)
  | inr full ↦
      rw (full) (one_more queue_len soft_limit w ws _ full (first_free_lem queue_len soft_limit ws))
]

-- What is taken from a list of candidates.
abbrev Overflows : (Worker → ℕ) → ℕ → List Worker → Option Worker → Type 0
Overflows queue_len soft_limit candidates selected =
    ((candidates ≡ []) × (selected ≡ none))
    ⊎ (((w : Worker) × (selected ≡ some w) × IsFirstFree queue_len soft_limit candidates (some w))
        ⊎ (IsFirstFree queue_len soft_limit candidates none
            × ((w : Worker) × (selected ≡ some w)
                × IsFirst (λ a b. ltb (queue_len a) (queue_len b)) candidates w)))

least_busy-empty :
    (queue_len : Worker → ℕ) (soft_limit : ℕ) → least_busy queue_len soft_limit [] ≡ none
unfolding least_busy first_free least
least_busy-empty queue_len soft_limit = refl

least_busy_lem :
    (queue_len : Worker → ℕ) (soft_limit : ℕ) (candidates : List Worker)
    → Overflows queue_len soft_limit candidates (least_busy queue_len soft_limit candidates)
unfolding least_busy least
least_busy_lem queue_len soft_limit [] = inl (refl, least_busy-empty queue_len soft_limit)
least_busy_lem queue_len soft_limit (w ∷ ws) =
    elim (Option-cases (first_free queue_len soft_limit (w ∷ ws))) [
      | inl full ↦ inr (
          inr (
            subst (IsFirstFree queue_len soft_limit (w ∷ ws)) full
                (first_free_lem queue_len soft_limit (w ∷ ws)),
            (
              _,
              rw (full, least_busy) refl,
              least_lem (λ a b. ltb (queue_len a) (queue_len b)) (λ a b c h k. ground (arith, h, k))
                  (λ a b c h k. ground (arith, h, k)) w ws,
            ),
          ))
      | inr (v, free) ↦ inr (
          inl (
            v,
            rw (free, least_busy) refl,
            subst (IsFirstFree queue_len soft_limit (w ∷ ws)) free
                (first_free_lem queue_len soft_limit (w ∷ ws)),
          ))
    ]

-- Of the workers by cost, within the maximum cost: the first whose queue is below the limit, else
-- the first of those with the shortest queue; and no worker where none is within the maximum cost.
select_overflow_lem :
    (soft_limit : ℕ) (task_type : String) (max_cost : Option ℕ) (workers : List Worker) (m : Memory)
    → Overflows
        (queue_length m)
        soft_limit
        (candidates_of task_type max_cost workers)
        (select_overflow soft_limit task_type max_cost workers m)
unfolding select_overflow
select_overflow_lem soft_limit task_type max_cost workers m =
    least_busy_lem (queue_length m) soft_limit (candidates_of task_type max_cost workers)
