-- ===== src/Tests/SchedulerTests.antt =====
-- scheduler.py at a schedule for every day.
use avtomatika.Prelude.{List, ◌≡◌, refl, arith, String, none, [], ◌∷◌, if◌then◌else◌}
use avtomatika.Dict.{get, pop_all, keys_where}
use avtomatika.Value.{text}
use avtomatika.Storage.Keys.{set_nx_ttl}
use avtomatika.Storage.Workers.{clean_expired}
use avtomatika.Executor.{Clock, in_memory}
use avtomatika.Scheduler.{ScheduledJobConfig, Moment, is_due, process_calendar_job}
use avtomatika.Scheduler.Once.{attempt_all, process_calendar_job-once}
use avtomatika.Tests.ExecutorTests.{accept, engine, uuid, world}

abbrev nightly : ScheduledJobConfig
nightly = record {
  name = "nightly";
  blueprint = "steps";
  input_data = text "";
  interval_seconds = 0;
  daily_at = "02:00";
  weekly_days = [];
  monthly_dates = 7 ∷ [];
  time = "";
  dispatch_timeout = none;
  result_timeout = none;
  security = none;
  metadata = none;
}

abbrev moment : Clock → Moment
moment clock = record {
  clock = clock;
  time_str = "02:00";
  day_str = "sat";
  day = 7;
  date_str = "2026-11-07";
}

abbrev two : Moment
two = moment (record { wall = 1000; mono = 5 })

-- Another instance, a second later.
abbrev later : Moment
later = moment (record { wall = 2000; mono = 1005 })

abbrev lower : String → String
lower s = s

-- Attempts of this schedule and of another in the same minute.
abbrev attempts : List (ScheduledJobConfig × Moment)
attempts =
    (nightly, later)
    ∷ (record nightly { name = "other" }, later)
    ∷ (nightly, moment (record { wall = 3000; mono = 2005 }))
    ∷ []

process_calendar_job-once_example :
    let w' =
      attempt_all uuid [] engine accept lower attempts
        (process_calendar_job uuid [] engine accept lower nightly two world) in
    process_calendar_job uuid [] engine accept lower nightly later w'
    ≡ (if is_due lower nightly later then in_memory (clean_expired 1005) w' else w')
unfolding is_due set_nx_ttl clean_expired get pop_all keys_where
process_calendar_job-once_example =
    process_calendar_job-once uuid [] engine accept lower nightly two attempts later world tt tt
      refl refl (ground arith) refl (ground arith)
