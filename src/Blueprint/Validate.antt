-- ===== src/Blueprint/Validate.antt =====
-- blueprint.py: `validate_integrity`, which looks for dangling transitions and unreachable states.
pub mod Search
pub mod Integrity
use avtomatika.Prelude.{
  ℕ, zero, suc, ◌+◌, String, Bool, true, false, not, Option, none, some, List, [], ◌∷◌, ◌++◌, map,
  filter, has, str_eq, ltb, ◌==◌, length, if◌then◌else◌,
}
use avtomatika.Dict
use avtomatika.Dict.{Dict, get_or, keys}
use avtomatika.Blueprint.{Blueprint, ConditionalHandler, Slot, placeholder, func}

-- A set of texts as a list: `s.add(x)` and `s |= xs`
abbrev add : String → List String → List String
add x s = if has x s then s else s ++ x ∷ []

abbrev pub add_all : List String → List String → List String
add_all [] s = s
add_all (x ∷ xs) s = add_all xs (add x s)

abbrev pub Transitions : Type 0
Transitions = Dict (List String)

-- `transitions.get(state, set())`
abbrev pub targets_of : Transitions → String → List String
targets_of transitions state = get_or state [] transitions

module _ {F : Type 0} (scan : F → Option (List String)) where
  -- One round of the loop over the handlers: `scan` reads the source of a function for the states
  -- that it leads to, `none` where the source cannot be parsed.
  unfoldable pub scan_handler : String → Slot F → Transitions × ℕ → Transitions × ℕ
  scan_handler state placeholder (transitions, errors) =
      (Dict.put state (targets_of transitions state) transitions, errors)
  scan_handler state (func f) (transitions, errors) =
      let found = targets_of transitions state in
      elim (scan f) [
        | none ↦ (Dict.put state found transitions, errors + 1)
        | some targets ↦ (Dict.put state (add_all targets found) transitions, errors)
      ]

  unfoldable pub scan_all : List (String × Slot F) → Transitions × ℕ → Transitions × ℕ
  unfolding scan_handler
  scan_all [] found = found
  scan_all ((state, slot) ∷ handlers) found = scan_all handlers (scan_handler state slot found)

abbrev pub aggregator_slots : {F : Type 0} → Dict F → List (String × Slot F)
aggregator_slots = map (λ e. (e.0, func e.1))

abbrev pub conditional_slots :
    {F C : Type 0} → List (ConditionalHandler F C) → List (String × Slot F)
conditional_slots = map (λ ch. (ch.state, func ch.function))

-- `_get_all_transitions`
unfoldable pub get_all_transitions :
    {F C : Type 0} → (F → Option (List String)) → Blueprint F C → Transitions × ℕ
unfolding scan_all
get_all_transitions scan b =
    scan_all scan
      (b.handlers
        ++ (aggregator_slots b.aggregator_handlers ++ conditional_slots b.conditional_handlers))
      ([], 0)

-- `set(handlers) | set(aggregator_handlers) | {ch.state for ch in conditional_handlers}`
unfoldable pub defined_states : {F C : Type 0} → Blueprint F C → List String
defined_states b = add_all (keys b.handlers) (
    add_all (keys b.aggregator_handlers) (add_all (map (λ ch. ch.state) b.conditional_handlers) []))

-- The first transition to a state that is not defined.
unfoldable pub first_undefined : List String → List String → Option String
first_undefined defined [] = none
first_undefined defined (target ∷ targets) =
    let rest = first_undefined defined targets in if has target defined then rest else some target

unfoldable pub dangling : List String → Transitions → Option (String × String)
unfolding first_undefined
dangling defined [] = none
dangling defined ((source, targets) ∷ transitions) =
    let rest = dangling defined transitions in
    elim (first_undefined defined targets) [ none ↦ rest | some target ↦ some (source, target) ]

-- `for target in …: if target not in reachable: reachable.add(target); stack.append(target)`; the
-- end of the stack, where it grows and shrinks, is the head of the list.
unfoldable pub visit : List String → List String × List String → List String × List String
visit [] (reachable, stack) = (reachable, stack)
visit (target ∷ targets) (reachable, stack) =
    if has target reachable
    then visit targets (reachable, stack)
    else visit targets (target ∷ reachable, target ∷ stack)

-- `while stack: …` with fuel, and the states that were reached; `none` where the fuel ran out.
unfoldable pub search_states : ℕ → Transitions → List String → List String → Option (List String)
unfolding visit
search_states fuel transitions reachable [] = some reachable
search_states zero transitions reachable (current ∷ stack) = none
search_states (suc fuel) transitions reachable (current ∷ stack) =
    let (reachable', stack') = visit (targets_of transitions current) (reachable, stack) in
    search_states fuel transitions reachable' stack'

-- The number of targets, one for each transition.
abbrev pub size : Transitions → ℕ
size [] = 0
size ((source, targets) ∷ transitions) = length targets + size transitions

-- `reachable` of the code. The fuel is one round for the start and one for each transition.
unfoldable pub reachable_from : Transitions → String → Option (List String)
unfolding search_states
reachable_from transitions start =
    search_states (suc (size transitions)) transitions (start ∷ []) (start ∷ [])

pub data Verdict : Type 0 where
  no_start : Verdict
  valid : Verdict
  dangling_transition : String → String → Verdict
  unreachable_states : List String → Verdict
  warning : List String → Verdict
  out_of_fuel : Verdict

-- `defined_states - reachable`
abbrev pub unreached : List String → List String → List String
unreached defined reachable = filter (λ s. not (has s reachable)) defined

-- The unreachable states: an error, or a warning if some source was not read.
unfoldable pub judge : ℕ → List String → Verdict
judge errors [] = valid
judge errors (s ∷ rest) = if ltb 0 errors then warning (s ∷ rest) else unreachable_states (s ∷ rest)

abbrev pub judge_reached : List String → ℕ → Option (List String) → Verdict
judge_reached defined errors none = out_of_fuel
judge_reached defined errors (some reachable) = judge errors (unreached defined reachable)

abbrev judge_start : List String → Transitions × ℕ → Option String → Verdict
judge_start defined (transitions, errors) none = valid
judge_start defined (transitions, errors) (some start) =
    if str_eq start ""
    then valid
    else judge_reached defined errors (reachable_from transitions start)

unfoldable pub validate_integrity :
    {F C : Type 0} → (F → Option (List String)) → Blueprint F C → Verdict
unfolding get_all_transitions defined_states dangling judge reachable_from
validate_integrity scan b =
    let found = get_all_transitions scan b in
    let defined = defined_states b in
    elim (dangling defined found.0) [
      | some (source, target) ↦ dangling_transition source target
      | none ↦ judge_start defined found b.start_state
    ]

-- `validate`, without the cache of the handlers' parameters
unfoldable validate : {F C : Type 0} → (F → Option (List String)) → Blueprint F C → Verdict
unfolding validate_integrity
validate scan b = elim b.start_state [ none ↦ no_start | some _ ↦ validate_integrity scan b ]
