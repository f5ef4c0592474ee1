-- ===== src/WorkerService/Results/Guards.antt =====
-- services/worker_service.py: which results `process_task_result` accepts, and what the others leave.
use mathlib.Core.Path.{subst}
use avtomatika.Prelude.{
  ◌/◌, ◌≡◌, ◌⊎◌, inl, inr, refl, sym, ap, ◌∙◌, arith, String, Bool, true, false, Option, none, some,
  [], ◌∷◌, str_eq, Bool-cases,
}
use avtomatika.Dict.{get}
use avtomatika.Value.{Job, status_of}
use avtomatika.Storage.{Skill}
use avtomatika.Storage.Jobs.{get_job_state, save_job_state}
use avtomatika.Executor.{World, Config, Clock, Step, text_or_empty, in_memory}
use avtomatika.Executor.Process.{is_terminal}
use avtomatika.WorkerService.{Rxon, Python, Settings, Refusal, verify_zero_trust}
use avtomatika.WorkerService.Outcomes.{
  Answer, refused, ignored, finish_task, handle_failed_task, code_and_message, cancelled_by_worker,
  transition, unhandled, succeeded,
}
use avtomatika.WorkerService.Results.{
  awaits_branches, verify_job_ownership_robust, with_picked_up, is_stale, accept_single,
  accept_result, process_found, process_valid, process_parsed, process_checked, process_task_result,
  with_sender, unload, judged, violation_of, skill_snapshot,
}
use avtomatika.WorkerService.Results.Kept.{
  Kept, Same, Kept-refl, Same-Kept, Kept-trans, unload-Same, rate_worker-Same, with_picked_up_lem,
  picked_up-Kept,
}
use avtomatika.WorkerService.Results.Presence.{
  IsAssigned, IsPresent, IsAssigned-owner, IsPresent-is_stale, with_picked_up-is_stale,
}

abbrev pub is_rejected : Answer → Bool
is_rejected (refused _) = true
is_rejected (ignored _) = true
is_rejected _ = false

module _ (rxon : Rxon) (python : Python) (settings : Settings) (config : Config)
    (dispatch : Job → Job → World → Step) where
  judged-Same :
      (worker_id : String) (violation : Option String) (payload : Job) (w : World)
      → Same w ((judged rxon python settings config dispatch worker_id violation payload w).1)
  judged-Same worker_id none payload w = (refl, refl, refl, refl, refl)
  judged-Same worker_id (some error_msg) payload w = rate_worker-Same worker_id _ w

  abbrev answer_of_task : Answer × World → Bool
  answer_of_task (answer, w) = is_rejected answer

  handle_failed_task-accepted :
      (clock : Clock) (task_id error_type error_message : String) (job : Job) (w : World)
      → is_rejected (
          (handle_failed_task settings rxon config dispatch clock task_id
            (error_type, error_message)
            job
            w).0)
        ≡ false
  unfolding handle_failed_task
  handle_failed_task-accepted clock task_id error_type error_message job w = ground arith

  transition-accepted :
      (worker_id result_status job_id : String) (payload job : Job) (w : World)
      → is_rejected ((transition settings worker_id result_status job_id payload job w).0) ≡ false
  unfolding transition unhandled succeeded
  transition-accepted worker_id result_status job_id payload job w = ground arith

  finish_task-accepted :
      (clock : Clock) (worker_id result_status task_id : String) (payload job : Job) (w : World)
      → is_rejected (
          (finish_task settings rxon config dispatch clock worker_id result_status task_id payload
            job w).0)
        ≡ false
  unfolding finish_task cancelled_by_worker
  finish_task-accepted clock worker_id result_status task_id payload job w =
      let (code, message) = code_and_message settings rxon config dispatch (get "error" payload) in
      elim (Bool-cases (str_eq result_status rxon.task_failure)) [
        | inl e ↦ rw e (handle_failed_task-accepted clock task_id code message job w)
        | inr e ↦ elim (Bool-cases (str_eq result_status rxon.task_cancelled)) [
          | inl c ↦ rw (e, c) refl
          | inr c ↦ rw (e, c) (transition-accepted worker_id result_status _ payload job w)
        ]
      ]

  -- The job is there and has not ended, and the task is the sender's and the job's present one, as
  -- far as the job names a worker and a task.
  abbrev pub Eligible : String → Job → Option Job → Type 0
  Eligible worker_id payload found =
      let task_id = text_or_empty (get "task_id" payload) in
      (job : Job) × (found ≡ some job)
      × IsAssigned task_id worker_id job
      × IsPresent task_id job
      × (is_terminal (status_of (get "status" job)) ≡ false)

  -- The reply is a refusal and changes no job, or the result is one that may be accepted.
  abbrev Guarded : World → Type 0 → Answer × World → Type 0
  Guarded w P (answer, w') =
      ((is_rejected answer ≡ true) × Kept w w') ⊎ ((is_rejected answer ≡ false) × P)

  Guarded-weaken :
      (w w' : World) (P Q : Type 0) (r : Answer × World)
      → Kept w w'
      → (P → Q)
      → Guarded w' P r
      → Guarded w Q r
  Guarded-weaken w w' P Q (answer, w'') k f (inl (rejected, k')) =
      inl (rejected, Kept-trans w w' w'' k k')
  Guarded-weaken w w' P Q (answer, w'') k f (inr (taken, p)) = inr (taken, f p)

  accept_result-Guarded :
      (clock : Clock) (worker_id task_id : String) (payload : Job) (snapshot : Option Skill)
      (job : Job) (w : World)
      → Guarded w
          ((is_stale task_id job ≡ false) × (is_terminal (status_of (get "status" job)) ≡ false))
          (accept_result rxon python settings config dispatch clock worker_id task_id payload
            snapshot job w)
  unfolding accept_result accept_single
  accept_result-Guarded clock worker_id task_id payload snapshot job w =
      elim (Bool-cases (is_stale task_id job)) [
        | inl e ↦ inl (rw e refl, rw e (Kept-refl w))
        | inr e ↦ elim (Bool-cases (is_terminal (status_of (get "status" job)))) [
          | inl t ↦ inl (rw (e, t) refl, rw (e, t) (Kept-refl w))
          | inr t ↦ elim (Bool-cases (awaits_branches job)) [
            | inl b ↦ inr (rw (e, t, b) refl, (e, t))
            | inr b ↦ inr (
              rw (e, t, b) (finish_task-accepted clock worker_id _ task_id payload job _),
              (e, t),
            )
          ]
        ]
      ]

  process_found-Guarded :
      (clock : Clock) (worker_id : String) (payload : Job) (found : Option Job) (w : World)
      → get (text_or_empty (get "job_id" payload)) w.memory.jobs ≡ found
      → Guarded w
          (Eligible worker_id payload found)
          (process_found rxon python settings config dispatch clock worker_id payload found w)
  unfolding process_found
  process_found-Guarded clock worker_id payload none w there = inl (refl, Kept-refl w)
  process_found-Guarded clock worker_id payload (some []) w there = inl (refl, Kept-refl w)
  process_found-Guarded clock worker_id payload (some (e ∷ rest)) w there =
      let job = e ∷ rest in
      let task_id = text_or_empty (get "task_id" payload) in
      let snapshot = skill_snapshot worker_id job w.memory in
      let violation = violation_of rxon python settings config dispatch payload snapshot in
      let (payload', w') =
        judged rxon python settings config dispatch worker_id violation payload w in
      let job_id = text_or_empty (get "job_id" payload) in
      let same = judged-Same worker_id violation payload w in
      let kept = Same-Kept w w' same in
      let job' = with_picked_up task_id payload' job in
      let w₁ = in_memory (save_job_state job_id job') w' in
      let marked =
        Kept-trans w w' w₁ kept
          (picked_up-Kept job_id task_id payload' job w' (ap (get job_id) (same.0) ∙ there)) in
      let accepted' =
        accept_result rxon python settings config dispatch clock worker_id task_id payload' snapshot
          job' w₁ in
      elim (Bool-cases (verify_job_ownership_robust task_id worker_id job)) [
        | inl o ↦ rw o (
            Guarded-weaken w w₁
              ((is_stale task_id job' ≡ false)
                × (is_terminal (status_of (get "status" job')) ≡ false))
              (Eligible worker_id payload (some job)) accepted' marked
              (λ p. (
                job,
                refl,
                IsAssigned-owner task_id worker_id job o,
                IsPresent-is_stale task_id job
                    (sym (with_picked_up-is_stale task_id payload' job) ∙ p.0),
                ap (λ v. is_terminal (status_of v))
                      (sym (with_picked_up_lem "status" task_id payload' job refl refl))
                    ∙ p.1,
              ))
              (accept_result-Guarded clock worker_id task_id payload' snapshot job' w₁))
        | inr o ↦ inl (rw o refl, rw o kept)
      ]

  process_valid-Guarded :
      (clock : Clock) (worker_id : String) (payload : Job) (w : World)
      → Guarded w
          ((str_eq (text_or_empty (get "worker_id" payload)) worker_id ≡ true)
            × Eligible worker_id payload
                (get_job_state (text_or_empty (get "job_id" payload)) w.memory))
          (process_valid rxon python settings config dispatch clock worker_id payload w)
  unfolding process_valid get_job_state
  process_valid-Guarded clock worker_id payload w =
      let found = get_job_state (text_or_empty (get "job_id" payload)) w.memory in
      elim (Bool-cases (str_eq (text_or_empty (get "worker_id" payload)) worker_id)) [
        | inl e ↦ rw e (
            Guarded-weaken w w (Eligible worker_id payload found)
              ((true ≡ true) × Eligible worker_id payload found)
              (process_found rxon python settings config dispatch clock worker_id payload found w)
              (Kept-refl w) (λ p. (refl, p))
              (process_found-Guarded clock worker_id payload found w refl))
        | inr e ↦ inl (rw e refl, rw e (Kept-refl w))
      ]

  -- The result that rxon reads in the payload is the sender's own, and eligible.
  abbrev pub Submitted : String → Option Job → World → Type 0
  Submitted worker_id parsed w =
      (result : Job) × (parsed ≡ some result)
      × (str_eq (text_or_empty (get "worker_id" (with_sender worker_id result))) worker_id ≡ true)
      × Eligible worker_id (with_sender worker_id result)
          (get_job_state (text_or_empty (get "job_id" (with_sender worker_id result))) w.memory)

  process_parsed-Guarded :
      (clock : Clock) (worker_id : String) (parsed : Option Job) (w : World)
      → Guarded w (Submitted worker_id parsed (unload worker_id w)) (
          process_parsed rxon python settings config dispatch clock worker_id parsed
            (unload worker_id w))
  process_parsed-Guarded clock worker_id none w =
      inl (refl, Same-Kept w (unload worker_id w) (unload-Same worker_id w))
  process_parsed-Guarded clock worker_id (some result) w =
      let payload = with_sender worker_id result in
      let w' = unload worker_id w in
      Guarded-weaken w w'
        ((str_eq (text_or_empty (get "worker_id" payload)) worker_id ≡ true)
          × Eligible worker_id payload
              (get_job_state (text_or_empty (get "job_id" payload)) w'.memory))
        (Submitted worker_id (some result) w')
        (process_valid rxon python settings config dispatch clock worker_id payload w')
        (Same-Kept w w' (unload-Same worker_id w)) (λ p. (result, refl, p.0, p.1))
        (process_valid-Guarded clock worker_id payload w')

  unload-Submitted :
      (worker_id : String) (parsed : Option Job) (w : World)
      → Submitted worker_id parsed (unload worker_id w)
      → Submitted worker_id parsed w
  unfolding get_job_state
  unload-Submitted worker_id parsed w (result, e, own, eligible) =
      let payload = with_sender worker_id result in
      (
        result,
        e,
        own,
        subst (Eligible worker_id payload)
            (ap (get (text_or_empty (get "job_id" payload))) ((unload-Same worker_id w).0))
            eligible,
      )

  process_checked-Guarded :
      (clock : Clock) (payload : Job) (worker_id : String) (refusal : Option Refusal) (w : World)
      → Guarded w
          ((refusal ≡ none) × Submitted worker_id (rxon.task_result payload) w)
          (process_checked rxon python settings config dispatch clock payload worker_id refusal w)
  process_checked-Guarded clock payload worker_id (some refusal) w = inl (refl, Kept-refl w)
  process_checked-Guarded clock payload worker_id none w =
      Guarded-weaken w w (Submitted worker_id (rxon.task_result payload) (unload worker_id w))
        ((◌≡◌ {A = Option Refusal} none none) × Submitted worker_id (rxon.task_result payload) w)
        (process_parsed rxon python settings config dispatch clock worker_id
          (rxon.task_result payload) (unload worker_id w))
        (Kept-refl w) (λ p. (refl, unload-Submitted worker_id (rxon.task_result payload) w p))
        (process_parsed-Guarded clock worker_id (rxon.task_result payload) w)

  -- What a result can do, whatever it is. Either the reply refuses or ignores it, and then no job
  -- comes or goes, no entry of a job is changed but the times at which tasks were picked up, and no
  -- queue of jobs, no quarantine, no deadline and nothing of the history is changed. Or the message
  -- is trusted, rxon reads a result in it, the result is the sender's own, its job is in the store
  -- and has not ended, the task is assigned to the sender or to nobody, and the job waits for
  -- branches, or has no present task, or the task is its present one.
  pub process_task_result-Guarded :
      (clock : Clock) (payload : Job) (worker_id : String) (w : World)
      → let trust =
          verify_zero_trust rxon python settings
            (clock.wall / 1000)
            payload
            worker_id
            []
            w.memory in
        let (answer, w') =
          process_task_result rxon python settings config dispatch clock payload worker_id w in
        ((is_rejected answer ≡ true) × Kept w w')
        ⊎ ((is_rejected answer ≡ false)
            × ((trust ≡ none) × Submitted worker_id (rxon.task_result payload) w))
  unfolding process_task_result
  process_task_result-Guarded clock payload worker_id w =
      process_checked-Guarded clock payload worker_id
        (verify_zero_trust rxon python settings (clock.wall / 1000) payload worker_id [] w.memory) w
