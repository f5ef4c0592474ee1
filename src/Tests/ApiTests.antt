-- ===== src/Tests/ApiTests.antt =====
-- api/handlers.py at a concrete job.
use avtomatika.Prelude.{◌≡◌, refl, false, [], ◌∷◌}
use avtomatika.Dict.{get}
use avtomatika.Value.{text, state, obj, Job, running, finished, from_dict}
use avtomatika.Api.{shown, filter_entries, filter_job_state}

-- A running job with the snapshot of one that has ended.
abbrev job : Job
job =
    ("id", text "c")
    ∷ ("status", state running)
    ∷ ("result", text "early")
    ∷ ("client_config", text "secret")
    ∷ (
      "context_snapshot",
      obj (
          from_dict
            (("status", state finished) ∷ ("result", text "late") ∷ ("security", text "key") ∷ [])),
    )
    ∷ []

filter_job_state-compact :
    filter_job_state false [] job
    ≡ ("id", text "c")
      ∷ ("status", state running)
      ∷ (
        "context_snapshot",
        obj (from_dict (("status", state finished) ∷ ("result", text "late") ∷ [])),
      )
      ∷ []
unfolding filter_job_state filter_entries shown get
filter_job_state-compact = refl
