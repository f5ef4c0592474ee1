-- ===== src/Blueprint/Validate/Search.antt =====
-- blueprint.py: the search for the reachable states ends, and finds exactly these.
use avtomatika.Prelude.{
  ℕ, zero, suc, ◌+◌, ◌≤◌, ◌<◌, ◌≡◌, ◌⊎◌, inl, inr, refl, sym, String, true, false, Option, none,
  some, List, [], ◌∷◌, ◌++◌, arith, has, str_eq, eq_iff, eq_refl, length, length-append, Bool-cases,
  ◌||◌, if◌then◌else◌,
}
use avtomatika.Dict
use avtomatika.Dict.{Dict, get_or}
use avtomatika.Blueprint.Validate.{
  Transitions, targets_of, visit, search_states, size, reachable_from,
}

-- A state is reached from `start` by transitions.
pub data Reaches (transitions : Transitions) (start : String) : String → Type 0 where
  here : Reaches transitions start start
  next :
      {s t : String}
      → Reaches transitions start s
      → has t (targets_of transitions s) ≡ true
      → Reaches transitions start t

-- The texts of `universe` that are not in the list, as often as they occur.
abbrev missing : List String → List String → ℕ
missing [] reachable = 0
missing (t ∷ universe) reachable =
    if has t reachable then missing universe reachable else suc (missing universe reachable)

missing_le :
    (universe : List String) (reachable : List String) (t : String)
    → missing universe (t ∷ reachable) ≤ missing universe reachable
missing_le [] reachable t = omega arith
missing_le (u ∷ universe) reachable t = ground (arith, missing_le universe reachable t)

missing_lt :
    (universe : List String) (reachable : List String) (t : String)
    → has t universe ≡ true
    → has t reachable ≡ false
    → missing universe (t ∷ reachable) < missing universe reachable
missing_lt [] reachable t h k = ground arith
missing_lt (u ∷ universe) reachable t h k =
    ground (
      arith,
      missing_lt universe reachable t,
      missing_le universe reachable t,
      eq_iff u t,
      eq_refl t,
    )

-- Each element passes the test of another list.
abbrev Subset : List String → List String → Type 0
Subset xs ys = (t : String) → has t xs ≡ true → has t ys ≡ true

-- One round of the inner loop: what it adds is new, comes from the targets, and goes on the stack.
module _ (universe : List String) where
  visit_measure :
      (targets reachable stack : List String)
      → Subset targets universe
      → length (visit targets (reachable, stack)).1
          + missing universe (visit targets (reachable, stack)).0
        ≤ length stack + missing universe reachable
  unfolding visit
  visit_measure [] reachable stack sub = omega arith
  visit_measure (t ∷ targets) reachable stack sub =
      let rest : Subset targets universe = λ u h. sub u (ground (arith, h)) in
      let in_universe : has t universe ≡ true = sub t (ground (arith, eq_refl t)) in
      elim (Bool-cases (has t reachable)) [
        | inl old ↦ rw old (visit_measure targets reachable stack rest)
        | inr new ↦ rw new (
            omega (
              arith,
              visit_measure targets (t ∷ reachable) (t ∷ stack) rest,
              missing_lt universe reachable t in_universe new,
            ))
      ]

-- What one round of the inner loop does to a state `t`.
record Visited (targets reachable stack : List String) (r : List String × List String) (t : String)
    : Type 0 where
  kept : has t reachable ≡ true → has t r.0 ≡ true
  added : has t targets ≡ true → has t r.0 ≡ true
  from : has t r.0 ≡ true → (has t reachable ≡ true) ⊎ (has t targets ≡ true)
  queued : has t r.1 ≡ true → (has t stack ≡ true) ⊎ (has t r.0 ≡ true)
  waiting : has t r.0 ≡ true → has t r.1 ≡ false → (has t reachable ≡ true) × (has t stack ≡ false)

visit_lem :
    (targets reachable stack : List String) (t : String)
    → Visited targets reachable stack (visit targets (reachable, stack)) t
unfolding visit
visit_lem [] reachable stack t = record {
  kept = λ h. h;
  added = λ h. cc;
  from = λ h. inl h;
  queued = λ h. inl h;
  waiting = λ h k. (h, k);
}
visit_lem (u ∷ targets) reachable stack t = elim (Bool-cases (has u reachable)) [
  | inl old ↦ rw old (
      let v = visit_lem targets reachable stack t in
      record {
        kept = v.kept;
        added = λ h. ground (arith, v.added, v.kept, h, old, eq_iff u t);
        from = λ h. ground (arith, v.from, h);
        queued = v.queued;
        waiting = v.waiting;
      })
  | inr new ↦ rw new (
      let v = visit_lem targets (u ∷ reachable) (u ∷ stack) t in
      record {
        kept = λ h. ground (arith, v.kept, h);
        added = λ h. ground (arith, v.added, v.kept, h, eq_iff u t);
        from = λ h. ground (arith, v.from, h, eq_iff u t);
        queued = λ h. ground (arith, v.queued, v.kept, h, eq_iff u t);
        waiting = λ h k. ground (arith, v.waiting, h, k, eq_iff u t);
      })
]

module _ (transitions : Transitions) (start : String) where
  -- What holds whenever the outer loop looks at its stack.
  record IsSearch (reachable stack : List String) : Type 0 where
    sound : (t : String) → has t reachable ≡ true → Reaches transitions start t
    queued : (t : String) → has t stack ≡ true → has t reachable ≡ true
    started : has start reachable ≡ true
    closed :
        (s t : String)
        → has s reachable ≡ true
        → has s stack ≡ false
        → has t (targets_of transitions s) ≡ true
        → has t reachable ≡ true

  step-IsSearch :
      (current : String) (reachable stack : List String)
      → IsSearch reachable (current ∷ stack)
      → let r = visit (targets_of transitions current) (reachable, stack) in IsSearch r.0 r.1
  step-IsSearch current reachable stack i =
      let targets = targets_of transitions current in
      let r = visit targets (reachable, stack) in
      let reached : has current reachable ≡ true =
        i.queued current (ground (arith, eq_refl current)) in
      record {
        sound = λ t h. sound t ((visit_lem targets reachable stack t).from h);
        queued = λ t h. queued t ((visit_lem targets reachable stack t).queued h);
        started = (visit_lem targets reachable stack start).kept i.started;
        closed = λ s t h k e.
            let (old, gone) = (visit_lem targets reachable stack s).waiting h k in
            closed s t old gone e (Bool-cases (str_eq current s));
      }
    where
      sound :
          (t : String)
          → (has t reachable ≡ true) ⊎ (has t (targets_of transitions current) ≡ true)
          → Reaches transitions start t
      sound t (inl h) = i.sound t h
      sound t (inr h) =
          next (i.sound current (i.queued current (ground (arith, eq_refl current)))) h

      queued :
          (t : String)
          → (has t stack ≡ true)
            ⊎ (has t (visit (targets_of transitions current) (reachable, stack)).0 ≡ true)
          → has t (visit (targets_of transitions current) (reachable, stack)).0 ≡ true
      queued t (inl h) =
          (visit_lem (targets_of transitions current) reachable stack t).kept
            (i.queued t (ground (arith, h)))
      queued t (inr h) = h

      closed :
          (s t : String)
          → has s reachable ≡ true
          → has s stack ≡ false
          → has t (targets_of transitions s) ≡ true
          → (str_eq current s ≡ true) ⊎ (str_eq current s ≡ false)
          → has t (visit (targets_of transitions current) (reachable, stack)).0 ≡ true
      closed s t h k e (inl same) =
          let eq : s ≡ current = sym ((eq_iff current s).0 same) in
          (visit_lem (targets_of transitions current) reachable stack t).added (rw eq at e)
      closed s t h k e (inr other) =
          (visit_lem (targets_of transitions current) reachable stack t).kept
            (i.closed s t h (ground (arith, other, k)) e)

  -- The answer: the states that are reached, all of them and no others.
  abbrev pub IsAnswer : Option (List String) → Type 0
  IsAnswer none = ⊥
  IsAnswer (some reachable) =
      ((t : String) → has t reachable ≡ true → Reaches transitions start t)
      × ((t : String) → Reaches transitions start t → has t reachable ≡ true)

  answer : (reachable : List String) → IsSearch reachable [] → IsAnswer (some reachable)
  answer reachable i = (i.sound, complete)
    where
      complete : (t : String) → Reaches transitions start t → has t reachable ≡ true
      complete t here = i.started
      complete t (next {s} r e) = i.closed s t (complete s r) refl e

  module _ (universe : List String)
      (sub : (s : String) → Subset (targets_of transitions s) universe) where
    search_lem :
        (fuel : ℕ) (reachable stack : List String)
        → IsSearch reachable stack
        → length stack + missing universe reachable ≤ fuel
        → IsAnswer (search_states fuel transitions reachable stack)
    unfolding search_states
    search_lem fuel reachable [] i h = answer reachable i
    search_lem zero reachable (current ∷ stack) i h = absurd (omega arith)
    search_lem (suc fuel) reachable (current ∷ stack) i h =
        let r = visit (targets_of transitions current) (reachable, stack) in
        search_lem fuel r.0 r.1 (step-IsSearch current reachable stack i) (
          omega (
            arith,
            visit_measure universe (targets_of transitions current) reachable stack (sub current),
          ))

-- The targets of all transitions.
abbrev all_targets : Transitions → List String
all_targets [] = []
all_targets ((source, targets) ∷ transitions) = targets ++ all_targets transitions

has-append : (t : String) (xs ys : List String) → has t (xs ++ ys) ≡ (has t xs || has t ys)
has-append t [] ys = refl
has-append t (x ∷ xs) ys = ground (arith, has-append t xs ys)

targets_of-all_targets :
    (transitions : Transitions) (s : String)
    → Subset (targets_of transitions s) (all_targets transitions)
unfolding Dict.get
targets_of-all_targets [] s t h = h
targets_of-all_targets ((source, targets) ∷ transitions) s t h =
    rw has-append (elim (Bool-cases (str_eq source s)) [
      | inl same ↦ ground (arith, h, same)
      | inr other ↦
          let rest = targets_of-all_targets transitions s t in ground (arith, h, other, rest)
    ])

missing-le-length :
    (universe reachable : List String) → missing universe reachable ≤ length universe
missing-le-length [] reachable = omega arith
missing-le-length (t ∷ universe) reachable = ground (arith, missing-le-length universe reachable)

size-all_targets : (transitions : Transitions) → length (all_targets transitions) ≡ size transitions
size-all_targets [] = refl
size-all_targets ((source, targets) ∷ transitions) =
    omega (arith, size-all_targets transitions, length-append {0} targets (all_targets transitions))

first-IsSearch :
    (transitions : Transitions) (start : String)
    → IsSearch transitions start (start ∷ []) (start ∷ [])
first-IsSearch transitions start = record {
  sound = λ t h. subst_here t (ground (arith, h, eq_iff start t));
  queued = λ t h. h;
  started = ground (arith, eq_refl start);
  closed = λ s t h k e. ground (arith, h, k);
}
  where
    subst_here : (t : String) → start ≡ t → Reaches transitions start t
    subst_here t e = rw (← e) here

-- The search of the code ends within its fuel, one round for the start and one for each transition,
-- and its set of reachable states holds a state exactly when transitions lead from the start to
-- it.
pub reachable_from_lem :
    (transitions : Transitions) (start : String)
    → IsAnswer transitions start (reachable_from transitions start)
unfolding reachable_from
reachable_from_lem transitions start =
    search_lem transitions start (all_targets transitions) (targets_of-all_targets transitions)
      (suc (size transitions)) (start ∷ []) (start ∷ []) (first-IsSearch transitions start)
      (omega (
        arith,
        missing-le-length (all_targets transitions) (start ∷ []),
        size-all_targets transitions,
      ))
