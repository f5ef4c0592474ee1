-- ===== src/WorkerService/Results/Repeats.antt =====
-- services/worker_service.py: a result that comes in twice.
use avtomatika.Prelude.{
  ◌≡◌, refl, ap, ◌∙◌, arith, String, false, Option, some, List, [], ◌∷◌, ◌++◌, str_eq,
}
use mathlib.Core.List.{append_assoc}
use avtomatika.Dict.{get, get-put}
use avtomatika.Value.{Job, state, status_of, text_of, dict_of, running}
use avtomatika.Storage.{Skill}
use avtomatika.Storage.Jobs.{get_job_state}
use avtomatika.Storage.Watch.{remove_job_from_watch}
use avtomatika.Executor.{World, Config, Clock, Step, text_or_empty, in_memory, log_job_event}
use avtomatika.Executor.Process.{is_terminal}
use avtomatika.WorkerService.{Rxon, Python, Settings, nonempty_text}
use avtomatika.WorkerService.Outcomes.{
  next_state_for, go_on, with_payload, finish_task, transition, succeeded,
}
use avtomatika.WorkerService.Outcomes.Transitions.{with_payload_lem, succeeded-stored}
use avtomatika.WorkerService.Results.{
  awaits_branches, is_stale, log_finished, accept_single, accept_result,
}

module _ (rxon : Rxon) (python : Python) (settings : Settings) (config : Config)
    (dispatch : Job → Job → World → Step) where
  -- The result is of the job's present task, and its status is one that the transitions know.
  abbrev Succeeds : String → Job → String → Job → Type 0
  Succeeds task_id payload next_state job =
      let result_status = text_or_empty (get "status" payload) in
      (str_eq result_status rxon.task_failure ≡ false)
      × (str_eq result_status rxon.task_cancelled ≡ false)
      × (awaits_branches job ≡ false)
      × (is_terminal (status_of (get "status" job)) ≡ false)
      × (is_stale task_id job ≡ false)
      × (next_state_for result_status job ≡ some next_state)

  -- The world in which the job goes on: the job is watched no more, and its task is in the history.
  abbrev noted : Clock → String → String → Job → Option Skill → Job → World → World
  noted clock worker_id task_id payload snapshot job w =
      log_finished clock worker_id task_id payload snapshot job
        (in_memory (remove_job_from_watch (text_or_empty (get "job_id" payload))) w)

  accept_result-succeeded :
      (clock : Clock) (worker_id task_id next_state : String) (payload job : Job)
      (snapshot : Option Skill) (w : World)
      → Succeeds task_id payload next_state job
      → accept_result rxon python settings config dispatch clock worker_id task_id payload snapshot
          job w
        ≡ succeeded settings worker_id next_state
            (text_or_empty (get "job_id" payload))
            payload
            job
            (noted clock worker_id task_id payload snapshot job w)
  unfolding accept_result accept_single finish_task transition
  accept_result-succeeded clock worker_id task_id next_state payload job snapshot w
        (f, c, b, t, s, n) =
      rw (s, t, b, f, c) (rw (n, transition) refl)

  accept_result-queue :
      (clock : Clock) (worker_id task_id next_state : String) (payload job : Job)
      (snapshot : Option Skill) (w : World)
      → Succeeds task_id payload next_state job
      → let w' =
          (accept_result rxon python settings config dispatch clock worker_id task_id payload
            snapshot job w).1 in
        let job_id = text_or_empty (get "job_id" payload) in
        (get_job_state job_id w'.memory ≡ some (go_on next_state (with_payload payload job)))
        × (w'.memory.job_queue ≡ w.memory.job_queue ++ job_id ∷ [])
  unfolding log_finished log_job_event remove_job_from_watch
  accept_result-queue clock worker_id task_id next_state payload job snapshot w h =
      let w₁ = noted clock worker_id task_id payload snapshot job w in
      rw (accept_result-succeeded clock worker_id task_id next_state payload job snapshot w h) (
        succeeded-stored settings worker_id next_state (text_or_empty (get "job_id" payload))
          payload job w₁)

  Succeeds-again :
      (task_id next_state : String) (payload job : Job)
      → Succeeds task_id payload next_state job
      → Succeeds task_id payload next_state (go_on next_state (with_payload payload job))
  unfolding is_stale is_terminal
  Succeeds-again task_id next_state payload job (f, c, b, t, s, n) =
      let job' = go_on next_state (with_payload payload job) in
      let same_task : get "current_task_id" job' ≡ get "current_task_id" job =
        simp (get-put) (with_payload_lem "current_task_id" payload job refl refl refl refl refl) in
      let same_next : get "current_task_transitions" job' ≡ get "current_task_transitions" job =
        simp (get-put)
          (with_payload_lem "current_task_transitions" payload job refl refl refl refl refl) in
      let now_running : get "status" job' ≡ some (state running) = simp (get-put) in
      (
        f,
        c,
        ground (arith, now_running),
        ground (arith, now_running),
        ground (arith, same_task, now_running),
        ap (λ v. nonempty_text (text_of (get (text_or_empty (get "status" payload)) (dict_of v))))
              same_next
            ∙ n,
      )

  -- A result of the job's present task, with a status that the transitions know, and that comes in
  -- twice: the job that the first one stored accepts the second one too, and stands in the queue of
  -- jobs twice.
  pub accept_result-twice :
      (clock : Clock) (worker_id task_id next_state : String) (payload job : Job)
      (snapshot : Option Skill) (w : World)
      → Succeeds task_id payload next_state job
      → let receive =
          accept_result rxon python settings config dispatch clock worker_id task_id payload
            snapshot in
        let job_id = text_or_empty (get "job_id" payload) in
        let w' = (receive job w).1 in
        (job' : Job) × (get_job_state job_id w'.memory ≡ some job')
        × (((receive job' w').1).memory.job_queue ≡ w.memory.job_queue ++ job_id ∷ (job_id ∷ []))
  accept_result-twice clock worker_id task_id next_state payload job snapshot w h =
      let receive =
        accept_result rxon python settings config dispatch clock worker_id task_id payload
          snapshot in
      let job_id = text_or_empty (get "job_id" payload) in
      let job' = go_on next_state (with_payload payload job) in
      let (stored, queued) =
        accept_result-queue clock worker_id task_id next_state payload job snapshot w h in
      let (_, queued') =
        accept_result-queue clock worker_id task_id next_state payload job' snapshot
          ((receive job w).1) (Succeeds-again task_id next_state payload job h) in
      (
        job',
        stored,
        queued'
            ∙ (ap (λ (l : List String). l ++ job_id ∷ []) queued
                ∙ append_assoc w.memory.job_queue (job_id ∷ []) (job_id ∷ [])),
      )
