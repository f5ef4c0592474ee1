-- ===== src/Blueprint/Find.antt =====
-- blueprint.py: `find_handler`, the function that runs for a state.
pub mod Choice
use avtomatika.Prelude.{
  String, Bool, true, false, ◌&&◌, Option, none, some, List, [], ◌∷◌, str_eq, if◌then◌else◌,
}
use avtomatika.Dict
use avtomatika.Dict.{Dict}
use avtomatika.Blueprint.{Blueprint, ConditionalHandler, Slot, placeholder, func}

-- The default handler of a state, not a placeholder.
abbrev pub default_of : {F : Type 0} → Option (Slot F) → Option F
default_of (some (func f)) = some f
default_of (some placeholder) = none
default_of none = none

-- A conditional handler comes first, then the default handler, then the aggregator.
abbrev pub choose : {F : Type 0} → Option F → Option (Slot F) → Option F → Option F
choose (some f) slot aggregator = some f
choose none slot aggregator = elim (default_of slot) [ some f ↦ some f | none ↦ aggregator ]

module _ {F C : Type 0} where
  -- `ConditionalHandler.evaluate`: a condition that raises is false.
  unfoldable pub evaluate : ConditionalHandler F C → C → Bool
  evaluate handler context = elim (handler.condition context) [ none ↦ false | some b ↦ b ]

  unfoldable pub first_conditional : List (ConditionalHandler F C) → String → C → Option F
  first_conditional [] state context = none
  first_conditional (handler ∷ handlers) state context =
      let rest = first_conditional handlers state context in
      if str_eq handler.state state && evaluate handler context then some handler.function else rest

  -- `none` is the `ValueError` of a state with no suitable handler.
  unfoldable pub find_handler : Blueprint F C → String → C → Option F
  find_handler b state context =
      choose (first_conditional b.conditional_handlers state context) (Dict.get state b.handlers)
        (Dict.get state b.aggregator_handlers)
