-- ===== src/WorkerService/Branches.antt =====
-- services/worker_service.py: what a branch's result writes into the job, and what it leaves.
use mathlib.Core.List.{Perm, Mem, eq-or-mem_of_mem-cons, not-mem-nil}
use mathlib.Core.List.Perm
use mathlib.Core.Logic.{∥∥₁_elim}
use avtomatika.Prelude.{
  ◌≡◌, inl, inr, refl, sym, arith, String, true, false, some, List, [], ◌∷◌, ap, ◌∙◌, has, str_eq,
  eq_iff, Bool-cases,
}
use avtomatika.Dict.{get, put, get-put, get-put_ne, get-put_self}
use avtomatika.Value.{
  obj, arr, from_texts, running, to_texts-from_texts, status_of, Job, from_dict, to_dict-from_dict,
  dict_of, texts_of, update,
}
use avtomatika.Executor.{value_or_null}
use avtomatika.WorkerService.Outcomes.{copy_set, merge_nonempty}
use avtomatika.WorkerService.Results.{
  settle_branches, remove_first, with_branch_result, update_parallel_results,
}

pub mem-has : (s : String) (xs : List String) → Mem s xs → has s xs ≡ true
mem-has s [] m = absurd (not-mem-nil m)
mem-has s (x ∷ xs) m = ∥∥₁_elim (eq-or-mem_of_mem-cons m) (hlevel) (λ d. elim d [
  | inl e ↦ ground (arith, eq_iff x s, sym e)
  | inr later ↦ ground (arith, mem-has s xs later)
])

pub remove_first-perm :
    (s : String) (xs : List String) → has s xs ≡ true → Perm xs (s ∷ remove_first s xs)
unfolding remove_first
remove_first-perm s [] h = cc
remove_first-perm s (x ∷ xs) h = elim (Bool-cases (str_eq x s)) [
  | inl e ↦ rw (e, (eq_iff x s).0 e) (Perm.refl (s ∷ xs))
  | inr e ↦ rw e (
      Perm.trans (Perm.cons x (remove_first-perm s xs (ground arith)))
        (Perm.swap s x (remove_first s xs)))
]

pub copy_set_lem :
    (k key : String) (payload job : Job)
    → str_eq key k ≡ false
    → get k (copy_set key payload job) ≡ get k job
copy_set_lem k key payload job d =
    let v = value_or_null (get key payload) in ground (arith, get-put_ne key k v job)

pub merge_nonempty_lem :
    (k key : String) (new job : Job)
    → str_eq key k ≡ false
    → get k (merge_nonempty key new job) ≡ get k job
merge_nonempty_lem k key [] job d = refl
merge_nonempty_lem k key (e ∷ new) job d = get-put_ne key k _ job d

-- Beside the results, a branch's result brings only its security and its metadata.
with_branch_result_lem :
    (k task_id : String) (payload job : Job)
    → str_eq "aggregation_results" k ≡ false
    → str_eq "security" k ≡ false
    → str_eq "metadata" k ≡ false
    → get k (with_branch_result task_id payload job) ≡ get k job
unfolding with_branch_result
with_branch_result_lem k task_id payload job a s m =
    merge_nonempty_lem k "metadata" _ _ m
    ∙ (copy_set_lem k "security" payload _ s ∙ get-put_ne "aggregation_results" k _ job a)

abbrev pub results_of : Job → Job
results_of job = dict_of (get "aggregation_results" job)

with_branch_result-results_of :
    (task_id : String) (payload job : Job)
    → results_of (with_branch_result task_id payload job)
      ≡ put task_id (obj (from_dict payload)) (results_of job)
unfolding with_branch_result update
with_branch_result-results_of task_id payload job =
    ap dict_of (
      merge_nonempty_lem "aggregation_results" "metadata" _ _ refl
      ∙ (copy_set_lem "aggregation_results" "security" payload _ refl
          ∙ get-put_self "aggregation_results" _ job))
    ∙ to_dict-from_dict _

abbrev pub active_of : Job → List String
active_of job = texts_of (get "active_branches" job)

settle_branches-active_of :
    (branches : List String) (job : Job) → active_of (settle_branches branches job) ≡ branches
settle_branches-active_of [] job = simp (get-put)
settle_branches-active_of (b ∷ branches) job =
    ap texts_of (get-put_self "active_branches" (arr (from_texts (b ∷ branches))) job)
    ∙ to_texts-from_texts (b ∷ branches)

-- Every other entry but the job's state and status is left.
settle_branches_lem :
    (k : String) (branches : List String) (job : Job)
    → str_eq "active_branches" k ≡ false
    → str_eq "current_state" k ≡ false
    → str_eq "status" k ≡ false
    → get k (settle_branches branches job) ≡ get k job
settle_branches_lem k [] job a c s = simp (get-put, a, c, s)
settle_branches_lem k (b ∷ branches) job a c s = simp (get-put, a)

-- What a branch's result makes of the job: its identifier is off the list of the active branches,
-- its payload is among the results, and the state to go on in is the same.
abbrev BranchSettled : String → Job → Job → Job → Type 0
BranchSettled task_id payload job job' =
    (active_of job' ≡ remove_first task_id (active_of job))
    × (results_of job' ≡ put task_id (obj (from_dict payload)) (results_of job))
    × (get "aggregation_target" job' ≡ get "aggregation_target" job)

pub update_parallel_results-BranchSettled :
    (task_id : String) (payload job : Job)
    → BranchSettled task_id payload job (update_parallel_results task_id payload job)
unfolding update_parallel_results
update_parallel_results-BranchSettled task_id payload job =
    let job' = with_branch_result task_id payload job in
    let left = remove_first task_id (active_of job') in
    (
      settle_branches-active_of left job'
          ∙ ap (λ v. remove_first task_id (texts_of v))
              (with_branch_result_lem "active_branches" task_id payload job refl refl refl),
      ap dict_of (settle_branches_lem "aggregation_results" left job' refl refl refl)
          ∙ with_branch_result-results_of task_id payload job,
      settle_branches_lem "aggregation_target" left job' refl refl refl
          ∙ with_branch_result_lem "aggregation_target" task_id payload job refl refl refl,
    )

-- The last result makes the job go on in that state.
pub update_parallel_results-last :
    (task_id : String) (payload job : Job)
    → remove_first task_id (active_of job) ≡ []
    → let job' = update_parallel_results task_id payload job in
      (status_of (get "status" job') ≡ some running)
      × (get "current_state" job' ≡ some (value_or_null (get "aggregation_target" job)))
unfolding update_parallel_results
update_parallel_results-last task_id payload job e =
    let job' = with_branch_result task_id payload job in
    let none_left : remove_first task_id (active_of job') ≡ [] =
      ap (λ v. remove_first task_id (texts_of v))
        (with_branch_result_lem "active_branches" task_id payload job refl refl refl)
      ∙ e in
    let target = with_branch_result_lem "aggregation_target" task_id payload job refl refl refl in
    (rw none_left (simp (get-put)), rw none_left (simp (get-put, target)))
