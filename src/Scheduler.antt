-- ===== src/Scheduler.antt =====
-- scheduler.py: `Scheduler`, what one turn of its loop does for the schedules.
pub mod Once
use Prim.Native.String.{◌++◌ as str_append}
use avtomatika.Prelude.{
  ℕ, ◌-◌, ◌*◌, String, Bool, true, false, not, ◌&&◌, ◌||◌, Option, none, some, List, [], ◌∷◌, map,
  filter, has, any, str_eq, ltb, ◌==◌, if◌then◌else◌,
}
use avtomatika.Dict
use avtomatika.Value.{Value, null, Job, truthy}
use avtomatika.Storage.{Memory}
use avtomatika.Storage.Keys.{set_nx_ttl, set_str, mget}
use avtomatika.Blueprint.{Blueprint}
use avtomatika.Executor.{World, Context, Clock, Engine, value_or_null, in_memory}
use avtomatika.Executor.Creation.{NewJob, create_background_job}

-- A text, a list or a number that is empty or 0 stands for one that is missing.
pub record ScheduledJobConfig : Type 0 where
  pub name : String
  pub blueprint : String
  pub input_data : Value
  pub interval_seconds : ℕ
  pub daily_at : String
  pub weekly_days : List String
  pub monthly_dates : List ℕ
  pub time : String
  pub dispatch_timeout : Option ℕ
  pub result_timeout : Option ℕ
  pub security : Option Value
  pub metadata : Option Value

-- The moment `now_tz` with the clocks, as `strftime` gives it: "%H:%M", "%a" in lower case, the day of
-- the month, and "%Y-%m-%d".
pub record Moment : Type 0 where
  pub clock : Clock
  pub time_str : String
  pub day_str : String
  pub day : ℕ
  pub date_str : String

abbrev pub lock_key : ScheduledJobConfig → Moment → String
lock_key job now = str_append "scheduler:lock:" (str_append job.name (str_append ":" now.date_str))

abbrev pub last_run_key : ScheduledJobConfig → String
last_run_key job = str_append "scheduler:last_run:" job.name

-- `f` gives what `lower` gives.
abbrev pub is_day : (String → String) → Moment → List String → Bool
is_day lower now [] = true
is_day lower now (d ∷ days) = has now.day_str (map lower (d ∷ days))

abbrev pub is_date : Moment → List ℕ → Bool
is_date now [] = true
is_date now (d ∷ dates) = any (λ n. n == now.day) (d ∷ dates)

-- The time of the day, the day of the week and the date are those of the schedule.
unfoldable pub is_due : (String → String) → ScheduledJobConfig → Moment → Bool
is_due lower job now =
    let target = if str_eq job.daily_at "" then job.time else job.daily_at in
    (not (str_eq target "") && str_eq now.time_str target)
    && (is_day lower now job.weekly_days && is_date now job.monthly_dates)

-- `validate_data`, `lower`, and Python's `str` and `float` of numbers are parameters, as are `uuid4` and
-- the tracing context; a text that is no number has no `parse`.
module _ {F : Type 0} (uuid : ℕ → String) (injected : Job) (engine : Engine F)
    (validate_data : Value → Value → Option String) where
  abbrev pub job_args : ScheduledJobConfig → NewJob
  job_args job = record {
    blueprint_name = job.blueprint;
    initial_data = job.input_data;
    source = str_append "scheduler:" job.name;
    tracing_context = none;
    data_metadata = none;
    dispatch_timeout = job.dispatch_timeout;
    result_timeout = job.result_timeout;
    security = job.security;
    metadata = job.metadata;
    parent_job_id = null;
  }

  -- The data does not fit the blueprint's contract.
  abbrev pub is_refused : ScheduledJobConfig → Bool
  is_refused job =
      let contract : Job = Dict.get_or job.blueprint [] engine.blueprint_contracts in
      let input_schema = value_or_null (Dict.get "input_schema" contract) in
      if truthy input_schema
      then elim (validate_data job.input_data input_schema) [ none ↦ false | some error ↦ true ]
      else false

  abbrev pub world_or : World → Option (String × World) → World
  world_or w none = w
  world_or w (some (job_id, w')) = w'

  -- An exception is logged.
  unfoldable pub trigger_job : Clock → ScheduledJobConfig → World → World
  trigger_job clock job w =
      if is_refused job
      then w
      else world_or w (create_background_job uuid injected engine clock (job_args job) w)

  -- The key for the day is taken for 24 hours; whoever gets it starts the job.
  unfoldable pub process_calendar_job :
      (String → String) → ScheduledJobConfig → Moment → World → World
  unfolding is_due
  process_calendar_job lower job now w =
      let (is_first, m) = set_nx_ttl now.clock.mono (lock_key job now) "locked" 86400 w.memory in
      let w' = record w { memory = m } in
      if is_due lower job now then (if is_first then trigger_job now.clock job w' else w') else w

  module _ (str : Value → String) (show : ℕ → String) (parse : String → Option ℕ) where
    -- Whether the last run is less than the interval ago; `none` where its text is no number.
    abbrev pub is_early : ℕ → ℕ → Option String → Option Bool
    is_early now interval none = some false
    is_early now interval (some last_run) =
        if str_eq last_run ""
        then some false
        else elim (parse last_run) [ none ↦ none | some t ↦ some (ltb (now - t) (interval * 1000)) ]

    abbrev run_interval_job : String → Clock → ScheduledJobConfig → World → World
    run_interval_job holder clock job w =
        let (is_mine, m) =
          set_nx_ttl clock.mono (str_append "scheduler:lock:interval:" job.name) holder 5
            w.memory in
        let triggered = trigger_job clock job (record w { memory = m }) in
        if is_mine
        then in_memory (set_str clock.mono (last_run_key job) (show clock.wall) none) triggered
        else record w { memory = m }

    abbrev pub process_interval_job :
        String → Clock → ScheduledJobConfig → Option String → World → World
    process_interval_job holder clock job last_run w =
        elim (is_early clock.wall job.interval_seconds last_run) [
          | none ↦ w
          | some true ↦ w
          | some false ↦ run_interval_job holder clock job w
        ]

    -- The jobs with what their keys held at the start.
    unfoldable pub process_each :
        String → Clock → List ScheduledJobConfig → List (Option String) → World → World
    process_each holder clock [] last_runs w = w
    process_each holder clock (job ∷ jobs) [] w = w
    process_each holder clock (job ∷ jobs) (last_run ∷ last_runs) w =
        process_each holder clock jobs last_runs (process_interval_job holder clock job last_run w)

    unfoldable pub process_interval_jobs : String → Clock → List ScheduledJobConfig → World → World
    unfolding process_each
    process_interval_jobs holder clock [] w = w
    process_interval_jobs holder clock (job ∷ jobs) w =
        let (last_runs, m) = mget str clock.mono (map last_run_key (job ∷ jobs)) w.memory in
        process_each holder clock (job ∷ jobs) last_runs (record w { memory = m })

    abbrev process_calendar_jobs :
        (String → String) → List ScheduledJobConfig → Moment → World → World
    process_calendar_jobs lower [] now w = w
    process_calendar_jobs lower (job ∷ jobs) now w =
        process_calendar_jobs lower jobs now (process_calendar_job lower job now w)

    -- One turn of the loop: the jobs with an interval, then those of the calendar.
    unfoldable run_turn :
        (String → String) → String → List ScheduledJobConfig → Moment → World → World
    run_turn lower holder schedules now w =
        process_calendar_jobs lower (filter (λ j. j.interval_seconds == 0) schedules) now (
          process_interval_jobs holder now.clock
            (filter (λ j. not (j.interval_seconds == 0)) schedules) w)

    -- A schedule by itself.
    unfoldable process_scheduled_job :
        (String → String) → String → ScheduledJobConfig → Moment → World → World
    process_scheduled_job lower holder job now w =
        if job.interval_seconds == 0
        then process_calendar_job lower job now w
        else process_interval_jobs holder now.clock (job ∷ []) w
