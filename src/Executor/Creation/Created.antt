-- ===== src/Executor/Creation/Created.antt =====
-- engine.py: what the creation of a background job leaves.
use avtomatika.Prelude.{
  ℕ, ◌+◌, ◌≡◌, ◌≢◌, refl, String, Option, none, some, [], ◌∷◌, ◌++◌, arith, eq_iff, Option-cases,
  inl, inr,
}
use avtomatika.Dict
use avtomatika.Dict.{get-put, get-put_self, get}
use avtomatika.Value.{Value, null, text, Job, status_of, pending}
use avtomatika.Storage.Jobs.{get_job_state, save_job_state, enqueue_job}
use avtomatika.Storage.Watch.{add_job_to_watch}
use avtomatika.Blueprint.{Blueprint}
use avtomatika.Executor.{World, Clock, Engine, Context, log_job_event}
use avtomatika.Executor.Creation.{NewJob, new_job, created, create_background_job, nonzero}

module _ {F : Type 0} (uuid : ℕ → String) (injected : Job) (engine : Engine F) where
  create-known :
      (clock : Clock) (args : NewJob) (blueprint : Blueprint F Context) (w : World)
      → Dict.get args.blueprint_name engine.blueprints ≡ some blueprint
      → create_background_job uuid injected engine clock args w
        ≡ some (uuid w.drawn, (created uuid injected engine clock blueprint args w).1)
  unfolding create_background_job created
  create-known clock args blueprint w known = rw (known, create_background_job) refl

  new_job-pending :
      (now : ℕ) (job_id : String) (blueprint : Blueprint F Context) (args : NewJob)
      → status_of (Dict.get "status" (new_job uuid injected engine now job_id blueprint args))
        ≡ some pending
  unfolding new_job get
  new_job-pending now job_id blueprint args = refl

-- A job starts in the start state; one whose blueprint has none is in no state.
abbrev pub start_of : Option String → Value
start_of none = null
start_of (some start_state) = text start_state

-- The creation of a job for a known blueprint: the job is stored under its identifier, pending, with
-- the blueprint's name and start state and the initial data that were given; it stands last in the queue of jobs, and the next identifier is
-- another draw; the jobs with other identifiers are as they were.
pub create_background_job_lem :
    {F : Type 0} (uuid : ℕ → String) (injected : Job) (engine : Engine F) (clock : Clock)
    (args : NewJob) (blueprint : Blueprint F Context) (w : World) (other : String)
    → Dict.get args.blueprint_name engine.blueprints ≡ some blueprint
    → other ≢ uuid w.drawn
    → let job = new_job uuid injected engine clock.wall (uuid w.drawn) blueprint args in
      let (job_id, w') = created uuid injected engine clock blueprint args w in
      (create_background_job uuid injected engine clock args w ≡ some (uuid w.drawn, w'))
      × (get_job_state (uuid w.drawn) w'.memory ≡ some job)
      × (status_of (Dict.get "status" job) ≡ some pending)
      × (Dict.get "id" job ≡ some (text (uuid w.drawn)))
      × (Dict.get "blueprint_name" job ≡ some (text blueprint.name))
      × (Dict.get "current_state" job ≡ some (start_of blueprint.start_state))
      × (Dict.get "initial_data" job ≡ some args.initial_data)
      × (w'.memory.job_queue ≡ w.memory.job_queue ++ uuid w.drawn ∷ [])
      × (w'.drawn ≡ w.drawn + 1)
      × (get_job_state other w'.memory ≡ get_job_state other w.memory)
unfolding get new_job created log_job_event get_job_state save_job_state enqueue_job
    add_job_to_watch
create_background_job_lem uuid injected engine clock args blueprint w other known d =
    let job = new_job uuid injected engine clock.wall (uuid w.drawn) blueprint args in
    let found = create-known uuid injected engine clock args blueprint w known in
    let waits = new_job-pending uuid injected engine clock.wall (uuid w.drawn) blueprint args in
    let stored = get-put_self (uuid w.drawn) job w.memory.jobs in
    let kept = get-put (uuid w.drawn) other job w.memory.jobs in
    elim (Option-cases (nonzero args.dispatch_timeout)) [
      | inl never ↦ (
        found,
        rw (never) stored,
        waits,
        refl,
        refl,
        refl,
        refl,
        rw (never) refl,
        rw (never) refl,
        rw (never) (ground (arith, kept, eq_iff (uuid w.drawn) other)),
      )
      | inr (timeout, watched) ↦ (
        found,
        rw (watched) stored,
        waits,
        refl,
        refl,
        refl,
        refl,
        rw (watched) refl,
        rw (watched) refl,
        rw (watched) (ground (arith, kept, eq_iff (uuid w.drawn) other)),
      )
    ]
