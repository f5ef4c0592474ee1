-- ===== src/Actions/Single.antt =====
-- context.py: a handler decides on one action at most.
use avtomatika.Prelude.{
  ℕ, ◌+◌, ◌≡◌, refl, String, Bool, true, false, Option, none, some, List, [], ◌∷◌, arith, ◌∙◌,
  if◌then◌else◌,
}
use avtomatika.Value.{Job}
use avtomatika.Actions.{
  ActionFactory, PendingEvent, TaskRequest, is_text_set, is_dict_set, has_action, update_context,
  send_event, dispatch_parallel, go_to, dispatch_task, await_human_approval, run_blueprint,
}

-- A call that a handler makes on its factory.
pub data Call : Type 0 where
  context : Job → Call
  event : PendingEvent → Call
  parallel : List Job → String → Call
  transition : String → Call
  task : TaskRequest → Call
  approval : String → String → Job → Call
  blueprint : String → Job → Job → Option ℕ → Option ℕ → Call

-- The factory after a call, and whether the call raised.
abbrev settle : ActionFactory → Option ActionFactory → ActionFactory × Bool
settle a none = (a, true)
settle a (some a') = (a', false)

unfoldable pub call : Call → ActionFactory → ActionFactory × Bool
call (context updates) a = (update_context updates a, false)
call (event e) a = (send_event e a, false)
call (parallel tasks aggregate_into) a = settle a (dispatch_parallel tasks aggregate_into a)
call (transition state) a = settle a (go_to state a)
call (task r) a = settle a (dispatch_task r a)
call (approval integration message transitions) a =
    settle a (await_human_approval integration message transitions a)
call (blueprint name initial_data transitions dispatch result) a =
    settle a (run_blueprint name initial_data transitions dispatch result a)

-- A handler that goes on after an error of its factory.
unfoldable pub calls : List Call → ActionFactory → ActionFactory
calls [] a = a
calls (c ∷ cs) a = calls cs (call c a).0

abbrev one_if : Bool → ℕ
one_if b = if b then 1 else 0

-- How many of the four actions are set.
unfoldable pub actions : ActionFactory → ℕ
actions a =
    one_if (is_text_set a.next_state)
    + (one_if (is_dict_set a.task_to_dispatch)
        + (one_if (is_dict_set a.sub_blueprint_to_run)
            + one_if (is_dict_set a.parallel_tasks_to_dispatch)))

-- The four actions of two factories are the same.
pub record SameAction (a b : ActionFactory) : Type 0 where
  pub next_state : b.next_state ≡ a.next_state
  pub task_to_dispatch : b.task_to_dispatch ≡ a.task_to_dispatch
  pub sub_blueprint_to_run : b.sub_blueprint_to_run ≡ a.sub_blueprint_to_run
  pub parallel_tasks_to_dispatch : b.parallel_tasks_to_dispatch ≡ a.parallel_tasks_to_dispatch

call_same : (c : Call) (a : ActionFactory) → has_action a ≡ true → SameAction a (call c a).0
unfolding call update_context send_event dispatch_parallel go_to dispatch_task await_human_approval
    run_blueprint
call_same (context updates) a h = ground arith
call_same _ a h = ground arith

has_action-same : (a b : ActionFactory) → SameAction a b → has_action b ≡ has_action a
unfolding has_action
has_action-same a b s =
    rw (s.next_state, s.task_to_dispatch, s.sub_blueprint_to_run, s.parallel_tasks_to_dispatch)

SameAction-trans : {a b c : ActionFactory} → SameAction a b → SameAction b c → SameAction a c
SameAction-trans s t = ground arith

-- The call asks for an action, so it raises where one is set.
abbrev pub asks : Call → Bool
asks (context updates) = false
asks (event e) = false
asks _ = true

call_raises : (c : Call) (a : ActionFactory) → has_action a ≡ true → (call c a).1 ≡ asks c
unfolding call dispatch_parallel go_to dispatch_task await_human_approval run_blueprint
call_raises (context updates) a h = refl
call_raises (event e) a h = refl
call_raises (parallel tasks aggregate_into) a h = ground arith
call_raises (transition state) a h = ground arith
call_raises (task r) a h = ground arith
call_raises (approval integration message transitions) a h = ground arith
call_raises (blueprint name initial_data transitions dispatch result) a h = ground arith

-- Once an action is set, it stays the action of the factory, whatever calls follow, and after them
-- every further call for an action raises and no other call does.
pub calls_first :
    (cs : List Call) (c : Call) (a : ActionFactory)
    → has_action a ≡ true
    → SameAction a (calls cs a) × ((call c (calls cs a)).1 ≡ asks c)
unfolding calls
calls_first [] c a h = (
  record {
    next_state = refl;
    task_to_dispatch = refl;
    sub_blueprint_to_run = refl;
    parallel_tasks_to_dispatch = refl;
  },
  call_raises c a h,
)
calls_first (d ∷ cs) c a h =
    let same = call_same d a h in
    let (rest, raises) = calls_first cs c (call d a).0 (has_action-same a (call d a).0 same ∙ h) in
    (SameAction-trans same rest, raises)
