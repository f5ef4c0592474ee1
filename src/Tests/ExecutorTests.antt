-- ===== src/Tests/ExecutorTests.antt =====
-- The executor of executor.py at concrete inputs: a job with a parent, in a store of both.
use avtomatika.Prelude.{
  ℕ, ◌≡◌, ◌≢◌, ◌⊎◌, ◌≤◌, ◌<◌, refl, arith, String, false, Option, none, some, [], ◌∷◌, eq_iff,
}
use avtomatika.Dict.{get}
use avtomatika.Value.{
  Value, num, text, state, obj, Job, from_dict, waiting_for_sub_job, pending, running, finished,
  failed, status_of, num_or,
}
use avtomatika.Storage.{empty}
use avtomatika.Storage.Jobs.{get_job_state, dequeue_job}
use avtomatika.Actions.{ActionFactory}
use avtomatika.Blueprint.{Blueprint, new_blueprint, func}
use avtomatika.Executor.{
  World, Config, Clock, Engine, Context, Ran, Step, current_state_of, in_memory,
}
use avtomatika.Executor.Outcomes.{handle_failure, handle_terminal_reached, handle_transition}
use avtomatika.Executor.Outcomes.Retries.{
  handle_transition_lem, handle_failure_lem, Retried, GivenUp,
}
use avtomatika.Executor.Outcomes.Parents.{handle_terminal_reached-parent, next_of_parent}
use avtomatika.Executor.Creation.{NewJob, created, create_background_job, new_job}
use avtomatika.Executor.Creation.Created.{create_background_job_lem, start_of}
use avtomatika.Executor.Process.{process_job, is_terminal}
use avtomatika.Executor.Process.Limits.{process_job-limit, process_job-dequeue}

abbrev pub config : Config
config = record {
  job_max_retries = 3;
  max_transitions = some 2;
  worker_timeout = 300;
  detailed_api_responses = false;
}

abbrev steps : Blueprint String Context
steps = record (new_blueprint {F = String} {C = Context} "steps") {
  handlers = ("begin", func "begin") ∷ ("done", func "done") ∷ [];
  start_state = some "begin";
  end_states = "done" ∷ [];
}

abbrev pub engine : Engine String
engine = record { blueprints = ("steps", steps) ∷ []; blueprint_contracts = []; config = config }

abbrev pub clock : Clock
clock = record { wall = 1000; mono = 50 }

abbrev child : Job
child =
    ("id", text "c")
    ∷ ("blueprint_name", text "steps")
    ∷ ("current_state", text "begin")
    ∷ ("parent_job_id", text "p")
    ∷ ("status", state pending)
    ∷ ("transition_count", num 2)
    ∷ ("retry_count", num 1)
    ∷ []

abbrev parent : Job
parent =
    ("id", text "p")
    ∷ ("current_state", text "wait")
    ∷ ("status", state waiting_for_sub_job)
    ∷ (
      "current_task_transitions",
      obj (from_dict (("success", text "next") ∷ ("failure", text "sorry") ∷ [])),
    )
    ∷ []

abbrev pub world : World
world = record {
  memory = record empty { jobs = ("c", child) ∷ ("p", parent) ∷ []; job_queue = "c" ∷ "q" ∷ [] };
  history = [];
  webhooks = [];
  notified = [];
  emitted = [];
  worker_history = [];
  commands = [];
  processing = [];
  drawn = 0;
}

abbrev pub dispatch : Job → Job → World → Step
dispatch job task w = (none, (job, w))

abbrev pub accept : Value → Value → Option String
accept value schema = none

abbrev pub uuid : ℕ → String
uuid n = "new"

-- The handler "begin" goes to "done", which does nothing.
abbrev run : String → Context → ActionFactory → Ran
run f context actions = record {
  actions = actions;
  initial_data = context.initial_data;
  state_history = context.state_history;
  aggregation_results = context.aggregation_results;
  raised = none;
}

p_not_c : ◌≢◌ {A = String} "p" "c"
p_not_c e = ground (arith, eq_iff "p" "c")

c_not_p : ◌≢◌ {A = String} "c" "p"
c_not_p e = ground (arith, eq_iff "c" "p")

p_not_empty : ◌≢◌ {A = String} "p" ""
p_not_empty e = ground (arith, eq_iff "p" "")

child-not_empty : child ≢ []
child-not_empty e = grind (arith)

parent-not_empty : parent ≢ []
parent-not_empty e = grind (arith)

handle_transition_lem_example :
    let (job', w') = handle_transition clock 5 "done" child world in
    (get_job_state "c" w'.memory ≡ some job')
    × (current_state_of job' ≡ "done")
    × (num_or 1 (get "retry_count" job') ≡ 0)
    × (status_of (get "status" job') ≡ some running)
    × (w'.memory.job_queue ≡ "c" ∷ ("q" ∷ ("c" ∷ [])))
    × (get_job_state "p" w'.memory ≡ get_job_state "p" world.memory)
unfolding get
handle_transition_lem_example = handle_transition_lem clock 5 "done" "p" child world p_not_c

handle_failure_lem_example :
    let left = handle_failure "finished" accept engine clock 5 "boom" child world in
    ((1 < 3) × Retried "finished" accept engine clock 5 child world.memory left)
    ⊎ ((3 ≤ 1) × GivenUp "finished" accept engine clock 5 child world.memory left)
unfolding get
handle_failure_lem_example =
    handle_failure_lem "finished" accept engine clock 5 "boom" child world c_not_p

handle_terminal_reached-parent_example :
    let (job', w') =
      handle_terminal_reached "finished" accept engine clock 5 finished child world in
    (w'.memory.job_queue ≡ "c" ∷ ("q" ∷ ("p" ∷ ("p" ∷ []))))
    × ((parent' : Job) × (get_job_state "p" w'.memory ≡ some parent')
        × (get "current_state" parent' ≡ some (next_of_parent "finished" child parent))
        × (get "status" parent' ≡ some (state running)))
unfolding get_job_state get
handle_terminal_reached-parent_example =
    handle_terminal_reached-parent "finished" accept engine clock 5 finished child parent world
      p_not_empty p_not_c refl parent-not_empty

process_job-limit_example :
    let w' = process_job uuid [] engine dispatch "finished" accept run clock 5 "c" "m" world in
    ((job' : Job) × (get_job_state "c" w'.memory ≡ some job')
      × (status_of (get "status" job') ≡ some failed))
    × (w'.memory.job_queue ≡ world.memory.job_queue)
    × (get_job_state "p" w'.memory ≡ get_job_state "p" world.memory)
    × (w'.processing ≡ world.processing)
unfolding get_job_state get is_terminal
process_job-limit_example =
    process_job-limit uuid [] engine dispatch "finished" accept run clock 5 "c" "m" "p" child world
      refl refl child-not_empty refl (ground arith) p_not_c

process_job-dequeue_example :
    let w = record world { processing = "memory-msg-id" ∷ [] } in
    let w₁ = in_memory (λ m. record m { job_queue = "q" ∷ [] }) w in
    (message_id : String) × (dequeue_job w.memory
      ≡ (some ("c", message_id), record w.memory { job_queue = "q" ∷ [] }))
    × (process_job uuid [] engine dispatch "finished" accept run clock 5 "c" message_id w₁ ≡ w₁)
process_job-dequeue_example =
    process_job-dequeue uuid [] engine dispatch "finished" accept run clock 5 "c" ("q" ∷ [])
      (record world { processing = "memory-msg-id" ∷ [] }) refl refl

abbrev args : NewJob
args = record {
  blueprint_name = "steps";
  initial_data = obj (from_dict []);
  source = "test";
  tracing_context = none;
  data_metadata = none;
  dispatch_timeout = some 60;
  result_timeout = none;
  security = none;
  metadata = none;
  parent_job_id = text "p";
}

p_not_new : ◌≢◌ {A = String} "p" "new"
p_not_new e = ground (arith, eq_iff "p" "new")

create_background_job_lem_example :
    let job = new_job uuid [] engine 1000 "new" steps args in
    let (job_id, w') = created uuid [] engine clock steps args world in
    (create_background_job uuid [] engine clock args world ≡ some ("new", w'))
    × (get_job_state "new" w'.memory ≡ some job)
    × (status_of (get "status" job) ≡ some pending)
    × (get "id" job ≡ some (text "new"))
    × (get "blueprint_name" job ≡ some (text steps.name))
    × (get "current_state" job ≡ some (start_of steps.start_state))
    × (get "initial_data" job ≡ some args.initial_data)
    × (w'.memory.job_queue ≡ "c" ∷ ("q" ∷ ("new" ∷ [])))
    × (w'.drawn ≡ 1)
    × (get_job_state "p" w'.memory ≡ get_job_state "p" world.memory)
unfolding get
create_background_job_lem_example =
    create_background_job_lem uuid [] engine clock args steps world "p" refl p_not_new
