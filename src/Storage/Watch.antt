-- ===== src/Storage/Watch.antt =====
-- storage/memory.py: the deadlines of watched jobs.
pub mod Due
use avtomatika.Prelude.{ℕ, String, List, [], ◌∷◌, take, leb, if◌then◌else◌}
use avtomatika.Dict
use avtomatika.Dict.{pop_all, keys_where}
use avtomatika.Storage.{Memory}

unfoldable pub add_job_to_watch : String → ℕ → Memory → Memory
add_job_to_watch job_id timeout_at m = record m {
  watched_jobs = Dict.put job_id timeout_at m.watched_jobs;
}

unfoldable pub remove_job_from_watch : String → Memory → Memory
remove_job_from_watch job_id m = record m { watched_jobs = Dict.pop job_id m.watched_jobs }

-- The first `limit` jobs that are due, in the order of the dict; they are no longer watched.
unfoldable pub get_timed_out_jobs : ℕ → ℕ → Memory → List String × Memory
get_timed_out_jobs now limit m =
    let timed_out_ids =
      take limit (keys_where (λ _ timeout_at. leb timeout_at now) m.watched_jobs) in
    (timed_out_ids, record m { watched_jobs = pop_all timed_out_ids m.watched_jobs })
