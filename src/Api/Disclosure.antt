-- ===== src/Api/Disclosure.antt =====
-- api/handlers.py: what no client sees of a job.
use avtomatika.Prelude.{String, Bool, true, false, not, ◌&&◌, ◌||◌, has, str_eq}
use avtomatika.Dict
use avtomatika.Value.{Value, obj, Entries, no_entries, entry, to_dict}
use avtomatika.Api.{compact_fields, sensitive_fields, has_terminal_status}

-- Without details only the compact fields, with them no sensitive one; and the result only of a job
-- that has ended.
abbrev may_see : Bool → Bool → String → Bool
may_see true is_terminal key =
    not (has key sensitive_fields) && (is_terminal || not (str_eq key "result"))
may_see false is_terminal key = has key compact_fields || (is_terminal && str_eq key "result")

-- Every key may be seen, and so may those of the snapshots of the context, at any depth.
unfoldable pub is_safe : Bool → Bool → Entries → Bool
is_safe detailed is_terminal no_entries = true
is_safe detailed is_terminal (entry key (obj inner) rest) =
    let later = is_safe detailed is_terminal rest in
    let nested = is_safe detailed (has_terminal_status (to_dict inner)) inner in
    may_see detailed is_terminal key && ((not (str_eq key "context_snapshot") || nested) && later)
is_safe detailed is_terminal (entry key v rest) =
    let later = is_safe detailed is_terminal rest in may_see detailed is_terminal key && later
