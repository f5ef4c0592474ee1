-- ===== src/Storage/Watch/Due.antt =====
-- storage/memory.py: the sweep of the deadlines.
use avtomatika.Prelude.{
  ℕ, zero, suc, ◌≤◌, ◌<◌, ◌≡◌, ◌⊎◌, refl, String, Bool, true, false, Option, none, some, List, [],
  ◌∷◌, arith, has, length, take, length-take-le, leb, if◌then◌else◌,
}
use avtomatika.Dict
use avtomatika.Dict.{Dict, keys_where, get-pop_all}
use avtomatika.Dict.Unique.{IsUnique, has-keys_where}
use avtomatika.Storage.{Memory}
use avtomatika.Storage.Watch.{get_timed_out_jobs}

has_of_take : (n : ℕ) (k : String) (ks : List String) → has k (take n ks) ≡ true → has k ks ≡ true
has_of_take zero k ks h = ground arith
has_of_take (suc n) k [] h = ground arith
has_of_take (suc n) k (j ∷ ks) h = ground (arith, has_of_take n k ks)

take_all : (n : ℕ) (ks : List String) → length (take n ks) < n → take n ks ≡ ks
take_all zero ks h = absurd (omega arith)
take_all (suc n) [] h = refl
take_all (suc n) (k ∷ ks) h = ground (arith, take_all n ks)

-- The deadline is there and not after `now`.
abbrev pub is_due : ℕ → Option ℕ → Bool
is_due now none = false
is_due now (some timeout_at) = leb timeout_at now

module _ (now limit : ℕ) (m : Memory) (unique : IsUnique m.watched_jobs) where
  has-due :
      (k : String)
      → has k (keys_where (λ _ timeout_at. leb timeout_at now) m.watched_jobs)
        ≡ is_due now (Dict.get k m.watched_jobs)
  has-due k =
      ground (arith, has-keys_where (λ _ timeout_at. leb timeout_at now) k m.watched_jobs unique)

  -- In a store with one deadline for a job, a sweep returns at most `limit` jobs. A job that it
  -- returns is watched no more, and any other job is watched as before. Either the sweep returns `limit`
  -- jobs and each of them had a deadline that had come, or it returns exactly the jobs whose
  -- deadlines had come.
  pub get_timed_out_jobs_lem :
      (job_id : String)
      → let (ids, m') = get_timed_out_jobs now limit m in
        (length ids ≤ limit)
        × (Dict.get job_id m'.watched_jobs
            ≡ (if has job_id ids then none else Dict.get job_id m.watched_jobs))
        × ((length ids ≡ limit)
              × ((has job_id ids ≡ false) ⊎ (is_due now (Dict.get job_id m.watched_jobs) ≡ true))
            ⊎ (has job_id ids ≡ is_due now (Dict.get job_id m.watched_jobs)))
  unfolding get_timed_out_jobs
  get_timed_out_jobs_lem job_id =
      let all : List String = keys_where (λ _ timeout_at. leb timeout_at now) m.watched_jobs in
      (
        length-take-le limit all,
        get-pop_all (take limit all) job_id m.watched_jobs,
        ground (
          arith,
          length-take-le limit all,
          has_of_take limit job_id all,
          take_all limit all,
          has-due job_id,
        ),
      )
