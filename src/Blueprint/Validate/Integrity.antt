-- ===== src/Blueprint/Validate/Integrity.antt =====
-- blueprint.py: what a blueprint that passes `validate_integrity` promises.
use avtomatika.Prelude.{
  ℕ, ◌+◌, ◌≡◌, ◌≢◌, ◌↔◌, inl, inr, refl, String, true, Option, none, some, List, [], ◌∷◌, ◌++◌,
  arith, has, str_eq, str_ne, eq_iff, eq_refl, Bool-cases,
}
use avtomatika.Dict
use avtomatika.Dict.Unique.{IsUnique, put-IsUnique}
use avtomatika.Blueprint.{Blueprint, Slot, placeholder, func}
use avtomatika.Blueprint.Validate.{
  Transitions, targets_of, get_all_transitions, defined_states, first_undefined, dangling, judge,
  judge_reached, unreached, reachable_from, scan_handler, scan_all, add_all, aggregator_slots,
  conditional_slots, validate_integrity, valid,
}
use avtomatika.Blueprint.Validate.Search.{Reaches, IsAnswer, reachable_from_lem}

first_undefined-none :
    (defined targets : List String) (t : String)
    → first_undefined defined targets ≡ none
    → has t targets ≡ true
    → has t defined ≡ true
unfolding first_undefined
first_undefined-none defined [] t h k = cc
first_undefined-none defined (u ∷ targets) t h k =
    ground (arith, first_undefined-none defined targets t, eq_iff u t)

-- No transition leads to a state that is not defined.
abbrev IsClosed : List String → Transitions → Type 0
IsClosed defined transitions =
    (s t : String) → has t (targets_of transitions s) ≡ true → has t defined ≡ true

dangling-none :
    (defined : List String) (transitions : Transitions)
    → dangling defined transitions ≡ none
    → IsClosed defined transitions
unfolding dangling Dict.get
dangling-none defined [] h s t k = cc
dangling-none defined ((source, targets) ∷ transitions) h s t k =
    elim (Bool-cases (str_eq source s)) [
      | inl same ↦
          first_undefined-none defined targets t (ground (arith, h)) (ground (arith, k, same))
      | inr other ↦
          dangling-none defined transitions (ground (arith, h)) s t (ground (arith, k, other))
    ]

unreached_none :
    (defined reachable : List String) (t : String)
    → unreached defined reachable ≡ []
    → has t defined ≡ true
    → has t reachable ≡ true
unreached_none [] reachable t h k = cc
unreached_none (d ∷ defined) reachable t h k =
    ground (arith, unreached_none defined reachable t, eq_iff d t)

first_undefined_all :
    (defined targets : List String)
    → ((t : String) → has t targets ≡ true → has t defined ≡ true)
    → first_undefined defined targets ≡ none
unfolding first_undefined
first_undefined_all defined [] h = refl
first_undefined_all defined (u ∷ targets) h =
    let here : has u defined ≡ true = h u (ground (arith, eq_refl u)) in
    let rest = first_undefined_all defined targets (λ t k. h t (ground (arith, k))) in
    ground (arith, here, rest)

dangling_all :
    (defined : List String) (transitions : Transitions)
    → IsUnique transitions
    → IsClosed defined transitions
    → dangling defined transitions ≡ none
unfolding dangling Dict.get
dangling_all defined [] u h = refl
dangling_all defined ((source, targets) ∷ transitions) u h =
    let here =
      first_undefined_all defined targets (λ t k. h source t (ground (arith, k, eq_refl source))) in
    let rest = dangling_all defined transitions u.1 (λ s t k. h s t (other s t k)) in
    ground (arith, here, rest)
  where
    other :
        (s t : String)
        → has t (targets_of transitions s) ≡ true
        → has t (targets_of ((source, targets) ∷ transitions) s) ≡ true
    other s t k = ground (arith, k, u.0, eq_iff source s)

unreached_all :
    (defined reachable : List String)
    → ((t : String) → has t defined ≡ true → has t reachable ≡ true)
    → unreached defined reachable ≡ []
unreached_all [] reachable h = refl
unreached_all (d ∷ defined) reachable h =
    let here : has d reachable ≡ true = h d (ground (arith, eq_refl d)) in
    let rest = unreached_all defined reachable (λ t k. h t (ground (arith, k))) in
    ground (arith, here, rest)

scan_handler-IsUnique :
    {F : Type 0} (scan : F → Option (List String)) (state : String) (slot : Slot F)
    (found : Transitions × ℕ)
    → IsUnique found.0
    → IsUnique (scan_handler scan state slot found).0
unfolding scan_handler
scan_handler-IsUnique scan state placeholder (transitions, errors) u =
    put-IsUnique state _ transitions u
scan_handler-IsUnique scan state (func f) (transitions, errors) u = by_scan (scan f)
  where
    by_scan :
        (o : Option (List String))
        → IsUnique
            (elim o as (λ _. Transitions × ℕ) [
              | none ↦ (Dict.put state (targets_of transitions state) transitions, errors + 1)
              | some targets ↦ (
                Dict.put state (add_all targets (targets_of transitions state)) transitions,
                errors,
              )
            ]).0
    by_scan none = put-IsUnique state _ transitions u
    by_scan (some targets) = put-IsUnique state _ transitions u

scan_all-IsUnique :
    {F : Type 0} (scan : F → Option (List String)) (handlers : List (String × Slot F))
    (found : Transitions × ℕ)
    → IsUnique found.0
    → IsUnique (scan_all scan handlers found).0
unfolding scan_all
scan_all-IsUnique scan [] found u = u
scan_all-IsUnique scan ((state, slot) ∷ handlers) found u =
    scan_all-IsUnique scan handlers (scan_handler scan state slot found)
      (scan_handler-IsUnique scan state slot found u)

-- Every transition leads to a defined state, and every defined state is reached from the start.
pub record IsSound (defined : List String) (transitions : Transitions) (start : String)
    : Type 0 where
  pub closed : IsClosed defined transitions
  pub reached : (t : String) → has t defined ≡ true → Reaches transitions start t

module _ {F C : Type 0} (scan : F → Option (List String)) (b : Blueprint F C) (start : String)
    (starts : b.start_state ≡ some start) (named : start ≢ "") where
  found : Transitions × ℕ
  found = get_all_transitions scan b

  judged :
      (errors : ℕ) (r : Option (List String))
      → IsAnswer found.0 start r
      → judge_reached (defined_states b) errors r ≡ valid
      → (t : String) → has t (defined_states b) ≡ true
      → Reaches found.0 start t
  unfolding judge
  judged errors none a h t k = absurd a
  judged errors (some reachable) a h t k =
      a.0 t (unreached_none (defined_states b) reachable t (ground (arith, h)) k)

  sound : validate_integrity scan b ≡ valid → IsSound (defined_states b) found.0 start
  unfolding validate_integrity found
  sound h =
      let clear : dangling (defined_states b) found.0 ≡ none = ground (arith, h) in
      record {
        closed = dangling-none (defined_states b) found.0 clear;
        reached =
            judged found.1 (reachable_from found.0 start) (reachable_from_lem found.0 start)
              (ground (arith, h, clear, starts, str_ne start "" named));
      }

  passes :
      (errors : ℕ) (r : Option (List String))
      → IsAnswer found.0 start r
      → ((t : String) → has t (defined_states b) ≡ true → Reaches found.0 start t)
      → judge_reached (defined_states b) errors r ≡ valid
  unfolding judge
  passes errors none a h = absurd a
  passes errors (some reachable) a h =
      rw (unreached_all (defined_states b) reachable (λ t k. a.1 t (h t k)))

  found-IsUnique : IsUnique found.0
  unfolding found get_all_transitions
  found-IsUnique =
      scan_all-IsUnique scan
        (b.handlers
          ++ (aggregator_slots b.aggregator_handlers ++ conditional_slots b.conditional_handlers))
        ([], 0) tt

  complete : IsSound (defined_states b) found.0 start → validate_integrity scan b ≡ valid
  unfolding validate_integrity found
  complete s =
      let clear = dangling_all (defined_states b) found.0 found-IsUnique s.closed in
      let pass =
        passes found.1 (reachable_from found.0 start) (reachable_from_lem found.0 start)
          s.reached in
      ground (arith, clear, pass, starts, str_ne start "" named)

  -- A blueprint with a start state passes without an error or a warning exactly when no transition
  -- that the scan of its handlers found leads to a state that is not defined, and these transitions
  -- lead from the start state to every defined state.
  pub validate_integrity_iff :
      (validate_integrity scan b ≡ valid)
      ↔ IsSound (defined_states b) (get_all_transitions scan b).0 start
  validate_integrity_iff = unfold found in (sound, complete)
