-- ===== src/Tests/ActionTests.antt =====
-- Handlers of context.py at concrete inputs.
use avtomatika.Prelude.{none, some, List, [], ◌∷◌}
use avtomatika.Actions.{ActionFactory, new_factory}
use avtomatika.Actions.Single.{Call, transition, approval}

abbrev handler : List Call
handler = transition "next" ∷ approval "mail" "please" [] ∷ []

abbrev decided : ActionFactory
decided = record (new_factory "job-1" none none) { next_state = some "next" }
