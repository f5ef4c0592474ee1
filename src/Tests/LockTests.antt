-- ===== src/Tests/LockTests.antt =====
-- Locks, quotas, counters and tokens of storage/memory.py at concrete inputs.
use avtomatika.Prelude.{
  ◌≡◌, ◌≢◌, ◌⊎◌, ◌≤◌, refl, String, true, has, length, false, none, some, List, [], ◌∷◌, arith,
  eq_iff, ltb, str_eq, if◌then◌else◌,
}
use avtomatika.Dict.{get, put, keys_where}
use avtomatika.Value.{text}
use avtomatika.Storage.{Memory, empty}
use avtomatika.Storage.Locks.{acquire_lock, release_lock}
use avtomatika.Storage.Locks.Exclusion.{Call, acquire, release, calls, lock_exclusive}
use avtomatika.Storage.Workers.{after}
use avtomatika.Storage.Tokens.{
  save_worker_access_token, verify_worker_access_token, save_worker_refresh_token,
  verify_worker_refresh_token,
}
use avtomatika.Storage.Tokens.Lifetime.{token-Lifetime}
use avtomatika.Storage.Watch.{add_job_to_watch, get_timed_out_jobs}
use avtomatika.Storage.Watch.Due.{is_due, get_timed_out_jobs_lem}

ne : {s t : String} → str_eq s t ≡ false → s ≢ t
ne {s} {t} h = ground (arith, eq_iff s t)

-- The watcher's lock on two instances.
abbrev others : List Call
others = acquire 5000 "watcher" "b" 60 ∷ release "watcher" "b" ∷ acquire 6000 "health" "b" 5 ∷ []

lock_exclusive_example :
    let m' = calls others (acquire_lock 1000 "watcher" "a" 60 empty).1 in
    (acquire_lock 7000 "watcher" "b" 60 m' ≡ (false, m'))
    × (acquire_lock 7000 "watcher" "a" 60 m' ≡ (false, m'))
    × (release_lock "watcher" "b" m' ≡ (false, m'))
unfolding acquire_lock get
lock_exclusive_example =
    lock_exclusive 1000 "watcher" "a" 60 empty others 7000 "b" 60 refl
      (omega arith, (λ _. refl, (omega arith, tt))) (omega arith) (ne refl)

token-Lifetime_example :
    (((verify_worker_access_token 3600000 "abc" (save_worker_access_token 0 "w" "abc" 3600 empty)).0
        ≡ (if ltb (after 0 3600) 3600000 then none else some (text "w")))
      × ((verify_worker_access_token 3600000 "xyz"
            (save_worker_access_token 0 "w" "abc" 3600 empty)).0
          ≡ (verify_worker_access_token 3600000 "xyz" empty).0))
    × (((verify_worker_refresh_token 3600000 "abc"
            (save_worker_refresh_token 0 "w" "abc" 3600 empty)).0
          ≡ (if ltb (after 0 3600) 3600000 then none else some (text "w")))
        × ((verify_worker_refresh_token 3600000 "xyz"
              (save_worker_refresh_token 0 "w" "abc" 3600 empty)).0
            ≡ (verify_worker_refresh_token 3600000 "xyz" empty).0))
token-Lifetime_example = token-Lifetime 0 "w" "abc" 3600 empty tt tt 3600000 "xyz" (ne refl)

-- Two watched jobs, of which one is due.
abbrev two_watched : Memory
two_watched = add_job_to_watch "job-2" 900 (add_job_to_watch "job-1" 100 empty)

get_timed_out_jobs_lem_example :
    let (ids, m') = get_timed_out_jobs 500 10 two_watched in
    (length ids ≤ 10)
    × (get "job-1" m'.watched_jobs
        ≡ (if has "job-1" ids then none else get "job-1" two_watched.watched_jobs))
    × ((length ids ≡ 10)
          × ((has "job-1" ids ≡ false) ⊎ (is_due 500 (get "job-1" two_watched.watched_jobs) ≡ true))
        ⊎ (has "job-1" ids ≡ is_due 500 (get "job-1" two_watched.watched_jobs)))
unfolding add_job_to_watch get put
get_timed_out_jobs_lem_example =
    get_timed_out_jobs_lem 500 10 two_watched (refl, (refl, tt)) "job-1"

sweep_runs : (get_timed_out_jobs 500 10 two_watched).0 ≡ "job-1" ∷ []
unfolding get_timed_out_jobs add_job_to_watch get put keys_where
sweep_runs = refl
