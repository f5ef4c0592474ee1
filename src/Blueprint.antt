-- ===== src/Blueprint.antt =====
-- blueprint.py: `Blueprint`, the states of a workflow and their handlers. A handler function is a
-- value of a type `F`, whose Python object is not looked into but by the scan of its source; a
-- context is a value of a type `C`.
pub mod Register
pub mod Find
pub mod Validate
use avtomatika.Prelude.{String, Bool, Option, none, List, []}
use avtomatika.Dict.{Dict}
use avtomatika.Value.{Job}

-- What the dict of handlers holds: `_PLACEHOLDER`, or a function.
pub data Slot (F : Type 0) : Type 0 where
  placeholder : Slot F
  func : F → Slot F

-- `condition` is `FastF.resolve` as a test; `none` where it raises.
pub record ConditionalHandler (F C : Type 0) : Type 0 where
  pub state : String
  pub function : F
  pub condition : C → Option Bool

pub record Blueprint (F C : Type 0) : Type 0 where
  pub name : String
  pub data_stores : Dict Job
  pub handlers : Dict (Slot F)
  pub aggregator_handlers : Dict F
  pub conditional_handlers : List (ConditionalHandler F C)
  pub start_state : Option String
  pub end_states : List String
  pub events_schema : Dict Job

-- `Blueprint(name)`
abbrev pub new_blueprint : {F C : Type 0} → String → Blueprint F C
new_blueprint name = record {
  name = name;
  data_stores = [];
  handlers = [];
  aggregator_handlers = [];
  conditional_handlers = [];
  start_state = none;
  end_states = [];
  events_schema = [];
}
