-- ===== src/Dispatcher/Compliance.antt =====
-- dispatcher.py: `_check_worker_compliance`, which workers may have a task.
use Prim.Native.String.{◌++◌ as str_append}
use avtomatika.Prelude.{
  ℕ, ◌+◌, leb, String, Bool, true, false, not, ◌&&◌, ◌||◌, Option, none, some, List, [], ◌∷◌, any,
  filter, has, str_eq, if◌then◌else◌,
}
use avtomatika.Dict
use avtomatika.Dict.{has_key}
use avtomatika.Value.{
  Value, null, text, obj, arr, Elements, no_elements, element, Job, from_dict, dict_of, truthy,
}
use avtomatika.Storage.{Worker, Skill}
use avtomatika.Executor.{value_or_null}
use avtomatika.Executor.Outcomes.{is_set}

-- What the filter takes from rxon, whose `matches` compare what a worker has with what is asked, and
-- from Python: its `==` on values, and the value of a skill's field, where it has one of that name.
pub record Matching : Type 0 where
  pub resources_match : Value → Value → Bool
  pub artifact_matches : Value → Value → Bool
  pub artifact_name : Value → String
  pub skill_matches : Skill → String → Value → Value → Bool
  pub skill_field : Skill → String → Value
  pub validate_data : Value → Value → Option String
  pub equal : Value → Value → Bool
  pub status_draining : String

abbrev to_list : Elements → List Value
to_list no_elements = []
to_list (element v vs) = v ∷ to_list vs

abbrev list_of : Option Value → List Value
list_of (some (arr vs)) = to_list vs
list_of _ = []

abbrev pub is_none : Option String → Bool
is_none none = true
is_none (some _) = false

-- Requirements that name cores or memory directly are its properties.
abbrev asked_resources : Value → Value
asked_resources v =
    let asked = dict_of (some v) in
    if not (has_key "properties" asked) && (has_key "cpu_cores" asked || has_key "ram_gb" asked)
    then obj (from_dict (("properties", v) ∷ []))
    else v

-- The keys of `{s for s in transitions if s not in STANDARD_STATUSES}`
unfoldable pub custom_statuses : Job → List String
custom_statuses transitions =
    filter (λ s. not (has s ("success" ∷ ("failure" ∷ ("cancelled" ∷ []))))) (Dict.keys transitions)

abbrev first_lacking : (String → Value → Bool) → Job → Option String
first_lacking p [] = none
first_lacking p ((k, v) ∷ rest) =
    let later = first_lacking p rest in if p k v then later else some k

abbrev skill_named : String → List Skill → Option Skill
skill_named task_type [] = none
skill_named task_type (skill ∷ skills) =
    let later = skill_named task_type skills in
    elim skill.name [
      | none ↦ later
      | some name ↦ if str_eq name task_type then some skill else later
    ]

module _ (matching : Matching) where
  -- Each check gives the reason of a refusal, and `none` where the worker passes it.
  unfoldable pub check_status : Worker → Option String
  check_status worker = elim worker.status [
    | none ↦ none
    | some status ↦
        if str_eq status matching.status_draining then some "worker_is_draining" else none
  ]

  unfoldable pub check_resources : Job → Worker → Option String
  check_resources requirements worker =
      let asked = Dict.get "resources" requirements in
      if is_set asked
      then if truthy worker.resources
        then if matching.resources_match worker.resources (asked_resources (value_or_null asked))
          then none
          else some "resource_mismatch"
        else some "missing_worker_resources"
      else none

  abbrev first_missing : List Value → List Value → Option String
  first_missing [] installed = none
  first_missing (asked ∷ rest) installed =
      let later = first_missing rest installed in
      if any (λ a. matching.artifact_matches a asked) installed
      then later
      else some (str_append "missing_artifact: " (matching.artifact_name asked))

  unfoldable pub check_artifacts : Job → Worker → Option String
  check_artifacts requirements worker =
      first_missing (list_of (Dict.get "installed_artifacts" requirements))
        worker.installed_artifacts

  -- A version that is "any" asks for no version.
  abbrev has_software : Worker → String → Value → Bool
  has_software worker name version = elim (Dict.get name worker.installed_software) [
    | none ↦ false
    | some installed ↦ matching.equal version (text "any") || matching.equal installed version
  ]

  unfoldable pub check_software : Job → Worker → Option String
  check_software requirements worker =
      elim (first_lacking (has_software worker)
        (dict_of (Dict.get "installed_software" requirements))) [
          | none ↦ none
          | some name ↦ some (str_append "missing_software: " name)
        ]

  -- The skill's own field, else its property of that name.
  abbrev has_parameter : Skill → String → Value → Bool
  has_parameter skill field expected =
      let own = matching.skill_field skill field in
      matching.equal (elim own [ null ↦ value_or_null (Dict.get field skill.properties) | v ↦ v ])
        expected

  abbrev check_parameters : Job → Skill → Option String
  check_parameters requirements skill =
      elim (first_lacking (has_parameter skill) (dict_of (Dict.get "skill" requirements))) [
        | none ↦ none
        | some field ↦ some (str_append "skill_param_mismatch: " field)
      ]

  abbrev check_input : Job → Skill → Option String
  check_input requirements skill =
      let params = Dict.get "params" requirements in
      if is_set params && truthy skill.input_schema
      then elim (matching.validate_data (value_or_null params) skill.input_schema) [
        | none ↦ none
        | some error ↦ some (str_append "schema_validation_failed: " error)
      ]
      else none

  abbrev is_no_text : List String → Bool
  is_no_text [] = true
  is_no_text (_ ∷ _) = false

  abbrev check_statuses : Job → Skill → Option String
  check_statuses requirements skill =
      let asked = custom_statuses (dict_of (Dict.get "transitions" requirements)) in
      if is_no_text skill.output_statuses
        || is_no_text (filter (λ s. not (has s skill.output_statuses)) asked)
      then none
      else some "unsupported_output_statuses"

  abbrev or_next : Option String → Option String → Option String
  or_next (some reason) next = some reason
  or_next none next = next

  unfoldable pub check_found : String → Job → Skill → Option String
  unfolding custom_statuses
  check_found task_type requirements skill =
      if matching.skill_matches skill task_type
        (value_or_null (Dict.get "skill_version" requirements))
        (value_or_null (Dict.get "skill_type" requirements))
      then or_next (check_parameters requirements skill)
          (or_next (check_input requirements skill) (check_statuses requirements skill))
      else some (str_append "skill_contract_mismatch: " task_type)

  unfoldable pub check_skill : String → Job → Worker → Option String
  unfolding check_found
  check_skill task_type requirements worker = elim (skill_named task_type worker.supported_skills) [
    | none ↦ some (str_append "skill_not_found: " task_type)
    | some skill ↦ check_found task_type requirements skill
  ]

  abbrev has_extra : Worker → String → Value → Bool
  has_extra worker key expected =
      matching.equal (value_or_null (Dict.get key worker.extra)) expected

  unfoldable pub check_extra : Job → Worker → Option String
  check_extra requirements worker =
      elim (first_lacking (has_extra worker)
        (dict_of (Dict.get "extra_requirements" requirements))) [
          | none ↦ none
          | some key ↦ some (str_append "extra_mismatch: " key)
        ]

  -- The reason of the first check that the worker fails; the texts of the code have more detail.
  unfoldable pub check_worker_compliance : String → Job → Worker → Option String
  check_worker_compliance task_type requirements worker = or_next (check_status worker) (
      or_next (check_resources requirements worker) (
        or_next (check_artifacts requirements worker) (
          or_next (check_software requirements worker) (
            or_next (check_skill task_type requirements worker)
              (check_extra requirements worker)))))

  -- The workers that pass, up to the first `max_candidates` of them; `count` have passed before.
  unfoldable pub compliant : ℕ → String → Job → ℕ → List Worker → List Worker
  compliant max_candidates task_type requirements count [] = []
  compliant max_candidates task_type requirements count (w ∷ ws) =
      let passes = is_none (check_worker_compliance task_type requirements w) in
      let rest =
        compliant max_candidates task_type requirements (if passes then count + 1 else count) ws in
      if passes then (if leb max_candidates (count + 1) then w ∷ [] else w ∷ rest) else rest
