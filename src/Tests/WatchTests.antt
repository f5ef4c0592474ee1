-- ===== src/Tests/WatchTests.antt =====
-- watcher.py at concrete inputs.
use avtomatika.Prelude.{◌≡◌, ◌⊎◌, refl, String, true, false, [], ◌∷◌, ℕ}
use avtomatika.Dict.{get}
use avtomatika.Storage.Jobs.{get_job_state}
use avtomatika.Storage.Locks.{acquire_lock}
use avtomatika.Executor.{World, in_memory}
use avtomatika.Orchestrator.{handle_task_failure}
use avtomatika.Watcher.{WatcherConfig, process_single, watch_round}
use avtomatika.Watcher.Rounds.{watch_round_lem, process_single-watch_key}
use avtomatika.Tests.ExecutorTests.{config, clock, dispatch}
use avtomatika.Tests.EngineTests.{waiting, waiting-not_empty, waiting_world}

abbrev watcher : WatcherConfig
watcher = record { instance_id = "here"; limit = 100 }

-- The job is due.
abbrev due_world : World
due_world = in_memory (λ m. record m { watched_jobs = ("c", 0) ∷ [] }) waiting_world

watch_round_lem_example :
    let got = (acquire_lock clock.mono "global_watcher_lock" "here" 60 due_world.memory).0 in
    let (ran, w') = watch_round config dispatch watcher clock due_world in
    ((got ≡ false) × (ran ≡ false) × (w' ≡ due_world))
    ⊎ ((got ≡ true)
        × (ran ≡ true)
        × ((later : ℕ) (other : String) (ttl : ℕ)
            → (acquire_lock later "global_watcher_lock" other ttl w'.memory).0 ≡ true))
watch_round_lem_example =
    watch_round_lem config dispatch watcher clock due_world (λ job task_info v. refl)

process_single-watch_key_example :
    process_single config dispatch clock "c:t" waiting_world
    ≡ (handle_task_failure config dispatch clock "t" "Worker task timed out (parallel branch)."
        waiting waiting_world).1.1
unfolding get_job_state get
process_single-watch_key_example =
    process_single-watch_key config dispatch clock true "c" "t" waiting waiting_world refl refl
      waiting-not_empty
