-- ===== src/Blueprint/Register.antt =====
-- blueprint.py: the decorators that register handlers.
pub mod Once
use avtomatika.Prelude.{
  String, Bool, true, false, Option, none, some, List, [], ◌∷◌, ◌++◌, has, str_eq, if◌then◌else◌,
}
use avtomatika.Dict
use avtomatika.Dict.{Dict, has_key}
use avtomatika.Value.{Job}
use avtomatika.Blueprint.{Blueprint, ConditionalHandler, Slot, placeholder, func}

-- The `ValueError`s of registration.
pub data RegisterError : Type 0 where
  duplicate_handler duplicate_start duplicate_aggregator duplicate_store : RegisterError

-- A blueprint after a call, with the error that the call raised, if any. What was written before
-- the error stays written.
abbrev pub Registered : Type 0 → Type 0 → Type 0
Registered F C = Option RegisterError × Blueprint F C

-- The arguments of `HandlerDecorator`, and the name of the function that it decorates.
pub record Registration (F C : Type 0) : Type 0 where
  pub state : Option String
  pub func_name : String
  pub function : F
  pub is_start : Bool
  pub is_end : Bool
  pub condition : Option (C → Option Bool)

module _ {F C : Type 0} where
  -- `self._state or func.__name__`
  unfoldable pub state_name_of : Registration F C → String
  state_name_of r = elim r.state [
    | none ↦ r.func_name
    | some s ↦ if str_eq s "" then r.func_name else s
  ]

  -- The default handler of the state: it raises where another function is registered.
  unfoldable pub put_default : String → F → Blueprint F C → Registered F C
  put_default state_name f b =
      let b' = record b { handlers = Dict.put state_name (func f) b.handlers } in
      elim (Dict.get state_name b.handlers) [
        | some (func g) ↦ (some duplicate_handler, b)
        | some placeholder ↦ (none, b')
        | none ↦ (none, b')
      ]

  -- A conditional handler; the state gets a placeholder if it has no handler.
  unfoldable pub put_conditional : String → F → (C → Option Bool) → Blueprint F C → Blueprint F C
  put_conditional state_name f condition b = record b {
    handlers =
        if has_key state_name b.handlers
        then b.handlers
        else Dict.put state_name placeholder b.handlers;
    conditional_handlers =
        b.conditional_handlers
        ++ record { state = state_name; function = f; condition = condition } ∷ [];
  }

  -- `if self._is_start: …`
  unfoldable pub put_start : Bool → String → Blueprint F C → Registered F C
  put_start false state_name b = (none, b)
  put_start true state_name b =
      let b' = record b { start_state = some state_name } in
      elim b.start_state [
        | none ↦ (none, b')
        | some s ↦ if str_eq s state_name then (none, b') else (some duplicate_start, b)
      ]

  -- `if self._is_end: self._blueprint.end_states.add(state_name)`
  unfoldable pub put_end : Bool → String → Blueprint F C → Blueprint F C
  put_end false state_name b = b
  put_end true state_name b =
      if has state_name b.end_states
      then b
      else record b { end_states = b.end_states ++ state_name ∷ [] }

  abbrev pub finish : Registration F C → String → Registered F C → Registered F C
  finish r state_name (some e, b) = (some e, b)
  finish r state_name (none, b) = (none, put_end r.is_end state_name b)

  abbrev pub start : Registration F C → String → Registered F C → Registered F C
  start r state_name (some e, b) = (some e, b)
  start r state_name (none, b) = finish r state_name (put_start r.is_start state_name b)

  abbrev pub install : Registration F C → String → Blueprint F C → Registered F C
  install r state_name b = elim r.condition [
    | some condition ↦ (none, put_conditional state_name r.function condition b)
    | none ↦ put_default state_name r.function b
  ]

  -- `HandlerDecorator.__call__`
  unfoldable pub decorate : Registration F C → Blueprint F C → Registered F C
  decorate r b = let state_name = state_name_of r in start r state_name (install r state_name b)

  -- The decorator that `Blueprint.aggregator` returns.
  unfoldable pub aggregator : Option String → String → F → Blueprint F C → Registered F C
  aggregator state func_name f b =
      let state_name : String = elim state [ none ↦ func_name | some s ↦ s ] in
      if has_key state_name b.aggregator_handlers
      then (some duplicate_aggregator, b)
      else (none, record b { aggregator_handlers = Dict.put state_name f b.aggregator_handlers })

  unfoldable add_data_store : String → Job → Blueprint F C → Registered F C
  add_data_store name initial_data b =
      if has_key name b.data_stores
      then (some duplicate_store, b)
      else (none, record b { data_stores = Dict.put name initial_data b.data_stores })
