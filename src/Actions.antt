-- ===== src/Actions.antt =====
-- context.py: `ActionFactory`, what a handler asks the orchestrator to do next.
pub mod Single
use avtomatika.Prelude.{
  ℕ, String, Bool, true, false, ◌||◌, not, Option, none, some, List, [], ◌∷◌, ◌++◌, map, str_eq,
  if◌then◌else◌,
}
use avtomatika.Dict
use avtomatika.Dict.{Dict, has_key}
use avtomatika.Value.{
  Value, null, num, text, arr, obj, Elements, no_elements, element, Job, from_dict, update, truthy,
}

-- The arguments of `send_event`.
pub record PendingEvent : Type 0 where
  pub event_type : String
  pub payload : Job
  pub security : Value
  pub metadata : Value

pub record ActionFactory : Type 0 where
  pub job_id : String
  pub default_dispatch_timeout : Option ℕ
  pub default_result_timeout : Option ℕ
  pub next_state : Option String
  pub task_to_dispatch : Option Job
  pub sub_blueprint_to_run : Option Job
  pub parallel_tasks_to_dispatch : Option Job
  pub pending_events : List PendingEvent
  pub context_updates : Job

-- `ActionFactory(job_id, …)`
unfoldable pub new_factory : String → Option ℕ → Option ℕ → ActionFactory
new_factory job_id dispatch result = record {
  job_id = job_id;
  default_dispatch_timeout = dispatch;
  default_result_timeout = result;
  next_state = none;
  task_to_dispatch = none;
  sub_blueprint_to_run = none;
  parallel_tasks_to_dispatch = none;
  pending_events = [];
  context_updates = [];
}

-- `bool(s)` and `bool(d)` of what may be `None`
abbrev pub is_text_set : Option String → Bool
is_text_set none = false
is_text_set (some s) = not (str_eq s "")

abbrev pub is_dict_set : Option Job → Bool
is_dict_set none = false
is_dict_set (some []) = false
is_dict_set (some (_ ∷ _)) = true

-- `any([…])` of `_check_for_existing_action`, which raises where it holds.
unfoldable pub has_action : ActionFactory → Bool
has_action a =
    is_text_set a.next_state
    || (is_dict_set a.task_to_dispatch
        || (is_dict_set a.sub_blueprint_to_run || is_dict_set a.parallel_tasks_to_dispatch))

-- `none` is the `RuntimeError` of a second action; the factory is then as it was.
abbrev guarded : ActionFactory → ActionFactory → Option ActionFactory
guarded a a' = if has_action a then none else some a'

unfoldable pub update_context : Job → ActionFactory → ActionFactory
update_context updates a = record a { context_updates = update a.context_updates updates }

unfoldable pub send_event : PendingEvent → ActionFactory → ActionFactory
send_event event a = record a { pending_events = a.pending_events ++ event ∷ [] }

-- `if "skill_version" not in task: task["skill_version"] = "1.0.0"`
abbrev with_version : Job → Job
with_version task =
    if has_key "skill_version" task then task else Dict.put "skill_version" (text "1.0.0") task

abbrev objects : List Job → Elements
objects [] = no_elements
objects (task ∷ tasks) = element (obj (from_dict task)) (objects tasks)

unfoldable pub dispatch_parallel : List Job → String → ActionFactory → Option ActionFactory
unfolding has_action
dispatch_parallel tasks aggregate_into a = guarded a (record a {
  parallel_tasks_to_dispatch = some (
      ("tasks", arr (objects (map with_version tasks)))
      ∷ ("aggregate_into", text aggregate_into)
      ∷ []);
})

unfoldable pub go_to : String → ActionFactory → Option ActionFactory
unfolding has_action
go_to state a = guarded a (record a { next_state = some state })

-- The arguments of `dispatch_task`; those that are passed on as they are stand as values.
pub record TaskRequest : Type 0 where
  pub task_type : String
  pub params : Job
  pub transitions : Job
  pub skill_version : Value
  pub event_transitions : Job
  pub dispatch_strategy : String
  pub resource_requirements : Value
  pub timeout_seconds : Value
  pub dispatch_timeout_seconds : Option ℕ
  pub result_timeout_seconds : Option ℕ
  pub max_cost : Value
  pub priority : Value
  pub resource_hint : Option String
  pub skill_type : Value

abbrev pub maybe_num : Option ℕ → Value
maybe_num none = null
maybe_num (some n) = num n

-- `explicit if explicit is not None else default`
abbrev or_default : Option ℕ → Option ℕ → Option ℕ
or_default none default = default
or_default (some n) default = some n

-- `if resource_hint: params["resource_hint"] = resource_hint`
abbrev hinted : Option String → Job → Job
hinted none params = params
hinted (some hint) params =
    if str_eq hint "" then params else Dict.put "resource_hint" (text hint) params

unfoldable task_info_of : TaskRequest → ActionFactory → Job
task_info_of r a =
    ("type", text r.task_type)
    ∷ ("params", obj (from_dict (hinted r.resource_hint r.params)))
    ∷ ("transitions", obj (from_dict r.transitions))
    ∷ ("event_transitions", obj (from_dict r.event_transitions))
    ∷ ("dispatch_strategy", text r.dispatch_strategy)
    ∷ ("resource_requirements", r.resource_requirements)
    ∷ ("timeout_seconds", r.timeout_seconds)
    ∷ (
      "dispatch_timeout_seconds",
      maybe_num (or_default r.dispatch_timeout_seconds a.default_dispatch_timeout),
    )
    ∷ (
      "result_timeout_seconds",
      maybe_num (or_default r.result_timeout_seconds a.default_result_timeout),
    )
    ∷ ("max_cost", r.max_cost)
    ∷ ("priority", r.priority)
    ∷ ("skill_version", r.skill_version)
    ∷ ("skill_type", r.skill_type)
    ∷ []

unfoldable pub dispatch_task : TaskRequest → ActionFactory → Option ActionFactory
unfolding has_action task_info_of
dispatch_task r a = guarded a (record a { task_to_dispatch = some (task_info_of r a) })

unfoldable pub await_human_approval : String → String → Job → ActionFactory → Option ActionFactory
unfolding has_action
await_human_approval integration message transitions a = guarded a (record a {
  task_to_dispatch = some (
      ("type", text "human_approval")
      ∷ ("integration", text integration)
      ∷ ("message", text message)
      ∷ ("transitions", obj (from_dict transitions))
      ∷ []);
})

unfoldable pub run_blueprint :
    String → Job → Job → Option ℕ → Option ℕ → ActionFactory → Option ActionFactory
unfolding has_action
run_blueprint blueprint_name initial_data transitions dispatch_timeout result_timeout a =
    guarded a (record a {
      sub_blueprint_to_run = some (
          ("blueprint_name", text blueprint_name)
          ∷ ("initial_data", obj (from_dict initial_data))
          ∷ ("transitions", obj (from_dict transitions))
          ∷ ("dispatch_timeout", maybe_num dispatch_timeout)
          ∷ ("result_timeout", maybe_num result_timeout)
          ∷ []);
    })
