-- ===== src/WorkerService/Results/Kept.antt =====
-- services/worker_service.py: what a result that is refused or ignored leaves as it was.
use avtomatika.Prelude.{
  ℕ, ◌≡◌, inl, inr, refl, sym, ap, ◌∙◌, arith, String, false, Option, none, some, [], ◌∷◌, str_eq,
  eq_iff, Bool-cases,
}
use avtomatika.Dict.{Dict, get, put, has_key, get-put, get-put_ne}
use avtomatika.Value.{Value, obj, from_dict, dict_of, update, Job}
use avtomatika.Storage.Jobs.{save_job_state}
use avtomatika.Storage.Workers.{decrement_worker_load, update_worker_data}
use avtomatika.Executor.{World, value_or_null, in_memory}
use avtomatika.WorkerService.Outcomes.{rate_worker}
use avtomatika.WorkerService.Results.{with_picked_up, unload}

-- The entry under `k` of the job with the id.
abbrev pub entry_at : String → String → Dict Job → Option Value
entry_at id k jobs = elim (get id jobs) [ none ↦ none | some job ↦ get k job ]

-- No job comes or goes, no entry of a job is changed but the times at which tasks were picked up, and
-- no queue of jobs, no deadline and nothing of the history is changed.
abbrev pub Kept : World → World → Type 0
Kept w w' =
    ((id k : String)
      → str_eq "branch_picked_up_at" k ≡ false
      → str_eq "task_picked_up_at" k ≡ false
      → entry_at id k w'.memory.jobs ≡ entry_at id k w.memory.jobs)
    × ((id : String) → has_key id w'.memory.jobs ≡ has_key id w.memory.jobs)
    × (w'.memory.job_queue ≡ w.memory.job_queue)
    × (w'.memory.quarantine_queue ≡ w.memory.quarantine_queue)
    × (w'.memory.watched_jobs ≡ w.memory.watched_jobs)
    × (w'.history ≡ w.history)

-- The jobs are not changed either.
abbrev pub Same : World → World → Type 0
Same w w' =
    (w'.memory.jobs ≡ w.memory.jobs)
    × (w'.memory.job_queue ≡ w.memory.job_queue)
    × (w'.memory.quarantine_queue ≡ w.memory.quarantine_queue)
    × (w'.memory.watched_jobs ≡ w.memory.watched_jobs)
    × (w'.history ≡ w.history)

pub Kept-refl : (w : World) → Kept w w
Kept-refl w = (λ id k b t. refl, λ id. refl, refl, refl, refl, refl)

pub Same-Kept : (w w' : World) → Same w w' → Kept w w'
Same-Kept w w' (j, q, r, s, h) =
    (λ id k b t. ap (entry_at id k) j, λ id. ap (has_key id) j, q, r, s, h)

pub Kept-trans : (w w' w'' : World) → Kept w w' → Kept w' w'' → Kept w w''
Kept-trans w w' w'' (e, i, q, r, s, h) (e', i', q', r', s', h') =
    (λ id k b t. e' id k b t ∙ e id k b t, λ id. i' id ∙ i id, q' ∙ q, r' ∙ r, s' ∙ s, h' ∙ h)

pub unload-Same : (worker_id : String) (w : World) → Same w (unload worker_id w)
unfolding decrement_worker_load
unload-Same worker_id w = ground arith

pub rate_worker-Same :
    (worker_id : String) (adjust : ℕ → ℕ) (w : World)
    → Same w (in_memory (rate_worker worker_id adjust) w)
unfolding rate_worker update_worker_data
rate_worker-Same worker_id adjust w = ground arith

-- A job that is there is replaced by one with the same entry.
put_entry :
    (id other k : String) (job job' : Job) (jobs : Dict Job)
    → get id jobs ≡ some job
    → get k job' ≡ get k job
    → entry_at other k (put id job' jobs) ≡ entry_at other k jobs
put_entry id other k job job' jobs found same = elim (Bool-cases (str_eq id other)) [
  | inl e ↦
      let it_is : id ≡ other = ground (arith, eq_iff id other) in
      let there : get other jobs ≡ some job = ap (λ i. get i jobs) (sym it_is) ∙ found in
      rw (get-put id other job' jobs, e, there, entry_at) same
  | inr e ↦ rw (get-put id other job' jobs, e, entry_at) refl
]

put_key :
    (id other : String) (job job' : Job) (jobs : Dict Job)
    → get id jobs ≡ some job
    → has_key other (put id job' jobs) ≡ has_key other jobs
put_key id other job job' jobs found = elim (Bool-cases (str_eq id other)) [
  | inl e ↦
      let it_is : id ≡ other = ground (arith, eq_iff id other) in
      let there : get other jobs ≡ some job = ap (λ i. get i jobs) (sym it_is) ∙ found in
      rw (get-put id other job' jobs, e, there, has_key) refl
  | inr e ↦ rw (get-put id other job' jobs, e, has_key) refl
]

pub with_picked_up_lem :
    (k task_id : String) (payload job : Job)
    → str_eq "branch_picked_up_at" k ≡ false
    → str_eq "task_picked_up_at" k ≡ false
    → get k (with_picked_up task_id payload job) ≡ get k job
unfolding with_picked_up
with_picked_up_lem k task_id payload job b t =
    let picked_up = value_or_null (get "picked_up_at" payload) in
    ground (
      arith,
      get-put_ne "task_picked_up_at" k picked_up job t,
      get-put_ne "branch_picked_up_at" k
          (obj (
            from_dict
              (update (dict_of (get "branch_picked_up_at" job)) ((task_id, picked_up) ∷ []))))
          job b,
    )

pub picked_up-Kept :
    (job_id task_id : String) (payload job : Job) (w : World)
    → get job_id w.memory.jobs ≡ some job
    → Kept w (in_memory (save_job_state job_id (with_picked_up task_id payload job)) w)
unfolding save_job_state
picked_up-Kept job_id task_id payload job w found =
    let job' = with_picked_up task_id payload job in
    (
      λ id k b t.
          put_entry job_id id k job job' w.memory.jobs found
            (with_picked_up_lem k task_id payload job b t),
      λ id. put_key job_id id job job' w.memory.jobs found,
      refl,
      refl,
      refl,
      refl,
    )
