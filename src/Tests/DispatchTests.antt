-- ===== src/Tests/DispatchTests.antt =====
-- `dispatch` of dispatcher.py at a concrete task.
use avtomatika.Prelude.{ℕ, refl, String, true, none, some, List, [], ◌∷◌}
use avtomatika.Dict.{get, put}
use avtomatika.Value.{text, Job}
use avtomatika.Storage.{Memory, Worker, Skill}
use avtomatika.Storage.Jobs.{get_job_state}
use avtomatika.Dispatcher.{least, least_from, select_cheapest}
use avtomatika.Dispatcher.Compliance.{
  Matching, check_worker_compliance, check_status, check_resources, check_artifacts, check_software,
  check_skill, check_found, check_extra, custom_statuses, compliant,
}
use avtomatika.Dispatcher.Dispatching.{
  DispatchConfig, dispatch, capable, eligible, select, requirements_of,
}
use avtomatika.Dispatcher.Dispatching.Owner.{dispatch-Dispatched, Dispatched}
use avtomatika.Tests.ExecutorTests.{clock, accept}
use avtomatika.Tests.EngineTests.{waiting, waiting_world}
use avtomatika.Tests.ServiceTests.{nobody}

abbrev matching : Matching
matching = record {
  resources_match = λ installed asked. true;
  artifact_matches = λ installed asked. true;
  artifact_name = λ asked. "artifact";
  skill_matches = λ skill name version kind. true;
  skill_field = λ skill field. text "";
  validate_data = accept;
  equal = λ v u. true;
  status_draining = "draining";
}

abbrev settings : DispatchConfig
settings = record {
  max_candidates = 50;
  min_reputation = 5000;
  soft_limit = 2;
  worker_timeout = 300;
}

abbrev skill : Skill
skill = record {
  name = some "step";
  kind = none;
  version = text "1";
  properties = [];
  input_schema = text "";
  output_schema = text "";
  events_schema = [];
  schema_dialect = "json-schema";
  output_statuses = [];
}

-- The cache always gives the same worker.
abbrev cached : List String → Memory → List Worker
cached ids m = record nobody { supported_skills = skill ∷ [] } ∷ []

abbrev uuid : ℕ → String
uuid n = "new"

abbrev task_info : Job
task_info = ("type", text "step") ∷ ("dispatch_strategy", text "cheapest") ∷ []

abbrev as_it_is : Job → Job
as_it_is payload = payload

dispatch-Dispatched_example :
    Dispatched matching settings cached uuid [] as_it_is clock
      (capable matching settings cached uuid [] as_it_is clock.mono "step" waiting_world.memory)
      task_info
      waiting
      waiting_world.memory
      waiting_world.drawn
      (dispatch matching settings cached uuid [] as_it_is clock waiting task_info waiting_world)
unfolding get put get_job_state dispatch capable eligible requirements_of compliant
    check_worker_compliance check_status check_resources check_artifacts check_software check_skill
    check_found check_extra custom_statuses select select_cheapest least least_from
dispatch-Dispatched_example =
    dispatch-Dispatched matching settings cached uuid [] as_it_is clock task_info waiting waiting
      waiting_world refl refl
