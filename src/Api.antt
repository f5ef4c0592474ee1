-- ===== src/Api.antt =====
-- api/handlers.py: what a client is shown of a job. A set of fields is a list, and the empty list
-- stands for a request that names none.
pub mod Disclosure
use avtomatika.Prelude.{
  String, Bool, true, false, not, ◌&&◌, ◌||◌, Option, none, some, List, [], ◌∷◌, has, str_eq,
  if◌then◌else◌,
}
use avtomatika.Dict
use avtomatika.Value.{
  Value, null, obj, text, state, Entries, no_entries, entry, Job, Status, finished, failed, error,
  quarantined, cancelled, from_dict, to_dict,
}

abbrev pub compact_fields : List String
compact_fields =
    "id" ∷ "job_id" ∷ "status" ∷ "blueprint_name" ∷ "context_snapshot" ∷ "child_job_id" ∷ []

abbrev pub sensitive_fields : List String
sensitive_fields = "client_config" ∷ "security" ∷ "internal_load" ∷ []

abbrev is_over : Status → Bool
is_over finished = true
is_over failed = true
is_over error = true
is_over quarantined = true
is_over cancelled = true
is_over _ = false

abbrev pub is_terminal_status : Option Value → Bool
is_terminal_status (some (state s)) = is_over s
is_terminal_status (some (text s)) =
    has s ("finished" ∷ "failed" ∷ "error" ∷ "quarantined" ∷ "cancelled" ∷ [])
is_terminal_status _ = false

-- `state.get("status") in terminal_states`
abbrev pub has_terminal_status : Job → Bool
has_terminal_status job = is_terminal_status (Dict.get "status" job)

abbrev pub names_none : List String → Bool
names_none [] = true
names_none (_ ∷ _) = false

-- Whether the key is shown. The result of a job that goes on is not.
unfoldable pub shown : Bool → List String → Bool → String → Bool
shown true requested is_terminal key =
    not (has key sensitive_fields)
    && ((names_none requested || has key ("id" ∷ requested))
        && (is_terminal || not (str_eq key "result")))
shown false requested is_terminal key =
    let allowed = has key compact_fields || (is_terminal && str_eq key "result") in
    if names_none requested then allowed else str_eq key "id" || (has key requested && allowed)

-- The snapshot of the context is filtered in its turn, without a request.
unfoldable pub filter_entries : Bool → (String → Bool) → Entries → Entries
filter_entries detailed allowed no_entries = no_entries
filter_entries detailed allowed (entry key (obj inner) rest) =
    let later = filter_entries detailed allowed rest in
    let nested =
      filter_entries detailed (shown detailed [] (has_terminal_status (to_dict inner))) inner in
    if allowed key
    then entry key (if str_eq key "context_snapshot" then obj nested else obj inner) later
    else later
filter_entries detailed allowed (entry key v rest) =
    let later = filter_entries detailed allowed rest in
    if allowed key then entry key v later else later

unfoldable pub filter_job_state : Bool → List String → Job → Job
filter_job_state detailed requested job =
    to_dict
      (filter_entries detailed (shown detailed requested (has_terminal_status job)) (from_dict job))
