-- ===== src/Tests/BlueprintTests.antt =====
-- A blueprint of blueprint.py at concrete inputs. Its functions are their names.
use avtomatika.Prelude.{
  ℕ, ◌≡◌, ◌↔◌, refl, String, Bool, true, false, Option, none, some, List, [], ◌∷◌, arith, eq_iff,
  str_eq, if◌then◌else◌,
}
use avtomatika.Dict.{get, put}
use avtomatika.Blueprint.{Blueprint, func, new_blueprint}
use avtomatika.Blueprint.Register.{
  Registration, state_name_of, put_default, put_start, put_end, decorate,
}
use avtomatika.Blueprint.Register.Once.{decorate_all}
use avtomatika.Blueprint.Find.{find_handler}
use avtomatika.Blueprint.Find.Choice.{Chosen, find_handler_lem}
use avtomatika.Blueprint.Validate.{
  get_all_transitions, defined_states, validate_integrity, reachable_from, valid,
  unreachable_states,
}
use avtomatika.Blueprint.Validate.Search.{IsAnswer, reachable_from_lem}
use avtomatika.Blueprint.Validate.Integrity.{IsSound, validate_integrity_iff}

abbrev step : String → Bool → Bool → Registration String ℕ
step name is_start is_end = record {
  state = none;
  func_name = name;
  function = name;
  is_start = is_start;
  is_end = is_end;
  condition = none;
}

-- start → work → finished
abbrev flow : Blueprint String ℕ
flow = record (new_blueprint "flow") {
  handlers = ("start", func "start") ∷ ("work", func "work") ∷ ("finished", func "finished") ∷ [];
  start_state = some "start";
  end_states = "finished" ∷ [];
}

-- Registration makes that blueprint.
flow_runs :
    decorate_all
      (step "start" true false ∷ step "work" false false ∷ step "finished" false true ∷ [])
      (new_blueprint "flow")
    ≡ flow
unfolding decorate_all decorate state_name_of put_default put_start put_end get put
flow_runs = refl

abbrev scan : String → Option (List String)
scan f =
    if str_eq f "start"
    then some ("work" ∷ [])
    else if str_eq f "work"
    then some ("finished" ∷ "work" ∷ [])
    else some []

flow_valid : validate_integrity scan flow ≡ valid
unfolding validate_integrity get put
flow_valid = refl

-- Without the second handler's transition the end is unreachable.
flow_unreachable :
    validate_integrity (λ f. if str_eq f "start" then some ("work" ∷ []) else some []) flow
    ≡ unreachable_states ("finished" ∷ [])
unfolding validate_integrity get put
flow_unreachable = refl

reachable_from_lem_example :
    IsAnswer
      (("start", "work" ∷ []) ∷ [])
      "start"
      (reachable_from (("start", "work" ∷ []) ∷ []) "start")
reachable_from_lem_example = reachable_from_lem (("start", "work" ∷ []) ∷ []) "start"

validate_integrity_iff_example :
    (validate_integrity scan flow ≡ valid)
    ↔ IsSound (defined_states flow) (get_all_transitions scan flow).0 "start"
validate_integrity_iff_example =
    validate_integrity_iff scan flow "start" refl
      (λ e. absurd (ground (arith, e, eq_iff "start" "")))

find_handler_lem_example : Chosen flow "work" 7 (find_handler flow "work" 7)
find_handler_lem_example = find_handler_lem flow "work" 7
