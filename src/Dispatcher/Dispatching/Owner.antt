-- ===== src/Dispatcher/Dispatching/Owner.antt =====
-- dispatcher.py: whose a task is after `dispatch`.
use mathlib.Core.List.{Perm}
use Prim.Native.String.{◌++◌ as str_append}
use avtomatika.Prelude.{
  ℕ, ◌+◌, ◌≡◌, ◌≢◌, refl, sym, ap, ◌∙◌, str_ne, arith, String, Bool, true, false, Option, none,
  some, List, [], ◌∷◌, All, str_eq, eq_iff, eq_refl, if◌then◌else◌, Bool-cases, inl, inr,
}
use avtomatika.Prelude.Int.{ℤ, pos}
use avtomatika.Dict.{get, get-put, get-put_self, get_or}
use avtomatika.Value.{text, Job, to_dict-from_dict, update}
use avtomatika.Storage.{Memory, Worker, Item}
use avtomatika.Storage.Jobs.{
  get_job_state, save_job_state, update_job_state_atomic, update_job_state_atomic-found,
}
use avtomatika.Storage.Keys.{increment_key}
use avtomatika.Storage.Tasks.{enqueue_task_for_worker}
use avtomatika.Storage.Tasks.Order.{queue_of, queue_of-enqueue, insert-perm}
use avtomatika.Storage.Watch.{add_job_to_watch}
use avtomatika.Storage.Workers.{increment_worker_load, or_else}
use avtomatika.Executor.{World, Clock, Step, value_or_null, text_or_empty, id_of}
use avtomatika.Executor.Outcomes.{is_set}
use avtomatika.Executor.Creation.{number_of, entry_or_dict}
use avtomatika.Orchestrator.{is_branch}
use avtomatika.WorkerService.Results.{verify_job_ownership_robust}
use avtomatika.WorkerService.Pickup.Ownership.{assigned_to, assigned-owner}
use avtomatika.Dispatcher.{select_round_robin}
use avtomatika.Dispatcher.Compliance.{Matching}
use avtomatika.Dispatcher.Dispatching.{
  DispatchConfig, update_dispatch_state, eligible, capable, select, task_payload, payload_of,
  place_task, task_id_for, dispatch_to, dispatch_among, dispatch,
}
use avtomatika.Dispatcher.Dispatching.Eligible.{Holds, Chosen, eligible-All, select-Holds}

update_dispatch_state-assigned_to :
    (now : ℕ) (worker_id task_id : String) (task_info job : Job)
    → assigned_to task_id (update_dispatch_state now worker_id task_id task_info job)
      ≡ some (text worker_id)
unfolding update_dispatch_state update
update_dispatch_state-assigned_to now worker_id task_id task_info job =
    elim (Bool-cases (is_branch task_id job)) [
      | inl b ↦ rw b (simp (get-put, to_dict-from_dict, eq_refl, b))
      | inr b ↦ rw b (simp (get-put, b))
    ]

enqueued-jobs :
    (worker_id : String) (payload : Job) (priority : ℤ) (m : Memory)
    → (increment_worker_load worker_id (enqueue_task_for_worker worker_id payload priority m)).jobs
      ≡ m.jobs
unfolding increment_worker_load enqueue_task_for_worker
enqueued-jobs worker_id payload priority m = ground arith

-- The queues of the store once a task is enqueued: one item more for the worker.
abbrev pub Enqueued : String → Job → ℤ → Memory → Memory → Type 0
Enqueued worker_id payload priority m m' =
    (item : Item) × (item.payload ≡ payload)
    × (item.priority ≡ priority)
    × Perm (queue_of worker_id m') (item ∷ queue_of worker_id m)
    × ((other : String) → worker_id ≢ other → queue_of other m' ≡ queue_of other m)

increment_worker_load-queues :
    (worker_id : String) (m : Memory)
    → (increment_worker_load worker_id m).worker_task_queues ≡ m.worker_task_queues
unfolding increment_worker_load
increment_worker_load-queues worker_id m = ground arith

increment_worker_load-Enqueued :
    (worker_id : String) (payload : Job) (priority : ℤ) (m : Memory)
    → Enqueued worker_id payload priority m
        (increment_worker_load worker_id (enqueue_task_for_worker worker_id payload priority m))
unfolding queue_of
increment_worker_load-Enqueued worker_id payload priority m =
    let item : Item = record {
      priority = priority;
      counter = m.queue_counter + 1;
      payload = payload;
    } in
    (
      item,
      refl,
      refl,
      rw (increment_worker_load-queues, queue_of-enqueue, eq_refl)
          (insert-perm item (queue_of worker_id m)),
      λ other d. rw (increment_worker_load-queues, queue_of-enqueue, str_ne worker_id other d) refl,
    )

-- What the second of two steps raises, where the test is false.
else_raises : (b : Bool) (s t : Step) → b ≡ false → (if b then s else t).0 ≡ none → t.0 ≡ none
else_raises true s t e h = cc
else_raises false s t e h = h

module _ (matching : Matching) (config : DispatchConfig)
    (cached : List String → Memory → List Worker) (uuid : ℕ → String) (injected : Job)
    (to_dict : Job → Job) where
  -- The stored job's task is the worker's, and nobody else's.
  abbrev Owned : Job → String → String → World → Type 0
  Owned job worker_id task_id w' =
      (after : Job) × (get_job_state (id_of job) w'.memory ≡ some after)
      × ((who : String) → verify_job_ownership_robust task_id who after ≡ str_eq worker_id who)

  place_task-Owned :
      (clock : Clock) (worker_id task_id : String) (task_info job stored : Job) (w : World)
      → worker_id ≢ ""
      → get_job_state (id_of job) w.memory ≡ some stored
      → Owned job worker_id task_id (
          (place_task matching config cached uuid injected to_dict clock worker_id task_id task_info
            job w).1)
  unfolding place_task get_job_state save_job_state add_job_to_watch
  place_task-Owned clock worker_id task_id task_info job stored w n found =
      let m₁ = increment_worker_load worker_id (
        enqueue_task_for_worker worker_id
          (payload_of matching config cached uuid injected to_dict clock.wall task_id task_info job)
          (pos (or_else (number_of (get "priority" task_info)) 0)) w.memory) in
      let place = update_dispatch_state clock.wall worker_id task_id task_info in
      let found₁ : get_job_state (id_of job) m₁ ≡ some stored =
        ap (get (id_of job)) (enqueued-jobs worker_id _ _ w.memory) ∙ found in
      (
        place stored,
        rw (update_job_state_atomic-found (id_of job) place stored m₁ found₁)
            (get-put_self (id_of job) (place stored) m₁.jobs),
        λ who.
            assigned-owner task_id worker_id who (place stored) n
              (update_dispatch_state-assigned_to clock.wall worker_id task_id task_info stored),
      )

  place_task-Enqueued :
      (clock : Clock) (worker_id task_id : String) (task_info job : Job) (w : World)
      → Enqueued worker_id
          (to_dict (
            task_payload matching config cached uuid injected to_dict clock.wall task_id task_info
              job))
          (pos (or_else (number_of (get "priority" task_info)) 0))
          w.memory
          ((place_task matching config cached uuid injected to_dict clock worker_id task_id
            task_info job w).1.memory)
  unfolding place_task payload_of update_job_state_atomic add_job_to_watch queue_of
  place_task-Enqueued clock worker_id task_id task_info job w =
      increment_worker_load-Enqueued worker_id _ _ w.memory

  select-kept :
      (strategy task_type : String) (max_cost : Option ℕ) (ws : List Worker) (m : Memory)
      → let m' =
          (select matching config cached uuid injected to_dict strategy task_type max_cost ws
            m).1 in
        (m'.jobs ≡ m.jobs) × (m'.worker_task_queues ≡ m.worker_task_queues)
  unfolding select select_round_robin increment_key
  select-kept strategy task_type max_cost [] m = (ground arith, ground arith)
  select-kept strategy task_type max_cost (w ∷ ws) m = (ground arith, ground arith)

  -- The task's own identifier, or the next draw.
  abbrev pub identifier_of : Job → ℕ → String
  identifier_of task_info drawn =
      if is_set (get "task_id" task_info)
      then text_or_empty (get "task_id" task_info)
      else str_append "task-" (uuid drawn)

  -- What is sent to the worker names the job and the task, with the task's type and parameters.
  abbrev pub Describes : String → Job → Job → Job → Type 0
  Describes task_id task_info job sent =
      (get "job_id" sent ≡ some (text (id_of job)))
      × (get "task_id" sent ≡ some (text task_id))
      × (get "type" sent ≡ some (value_or_null (get "type" task_info)))
      × (get "params" sent ≡ some (entry_or_dict "params" task_info))

  task_payload-Describes :
      (now : ℕ) (task_id : String) (task_info job : Job)
      → Describes task_id task_info job
          (task_payload matching config cached uuid injected to_dict now task_id task_info job)
  unfolding task_payload get
  task_payload-Describes now task_id task_info job = (refl, refl, refl, refl)

  -- From the store `m`: the task is in the queue of an eligible candidate, which owns it.
  abbrev pub Dispatched : Clock → List Worker → Job → Job → Memory → ℕ → Step → Type 0
  Dispatched clock candidates task_info job m drawn (raised, (job', w')) =
      let task_id = identifier_of task_info drawn in
      (worker : Worker) × Chosen matching config cached uuid injected to_dict candidates task_info
        job worker
      × ((sent : Job) × Describes task_id task_info job sent
          × Enqueued worker.worker_id (to_dict sent)
              (pos (or_else (number_of (get "priority" task_info)) 0)) m w'.memory)
      × Owned job worker.worker_id task_id w'

  task_id_for-drawn :
      (task_info : Job) (w : World)
      → let (task_id, w') = task_id_for matching config cached uuid injected to_dict task_info w in
        (task_id ≡ identifier_of task_info w.drawn) × (w'.memory ≡ w.memory)
  task_id_for-drawn task_info w = (ground arith, ground arith)

  Enqueued-from :
      (worker_id : String) (payload : Job) (priority : ℤ) (m m₀ m' : Memory)
      → m.worker_task_queues ≡ m₀.worker_task_queues
      → Enqueued worker_id payload priority m m'
      → Enqueued worker_id payload priority m₀ m'
  unfolding queue_of
  Enqueued-from worker_id payload priority m m₀ m' e h = rw (sym e) h

  dispatch_to-Dispatched :
      (clock : Clock) (candidates : List Worker) (task_info job stored : Job)
      (selected : Option Worker) (m : Memory) (w : World)
      → get_job_state (id_of job) w.memory ≡ some stored
      → w.memory.worker_task_queues ≡ m.worker_task_queues
      → Holds
          (Chosen matching config cached uuid injected to_dict candidates task_info job)
          selected
      → let left =
          dispatch_to matching config cached uuid injected to_dict clock job task_info selected w in
        left.0 ≡ none → Dispatched clock candidates task_info job m w.drawn left
  unfolding get_job_state
  dispatch_to-Dispatched clock candidates task_info job stored none m w found queues h e = cc
  dispatch_to-Dispatched clock candidates task_info job stored (some worker) m w found queues h e =
      let (task_id, w') = task_id_for matching config cached uuid injected to_dict task_info w in
      let (drawn, same) = task_id_for-drawn task_info w in
      let stored' = ap (λ (v : Memory). get (id_of job) v.jobs) same ∙ found in
      let queues' = ap (λ (v : Memory). v.worker_task_queues) same ∙ queues in
      elim (Bool-cases (str_eq worker.worker_id "")) [
        | inl empty ↦ absurd (ground arith)
        | inr named ↦ (
          worker,
          h,
          (
            task_payload matching config cached uuid injected to_dict clock.wall task_id task_info
                job,
            rw (sym drawn) (task_payload-Describes clock.wall task_id task_info job),
            rw named (
                Enqueued-from worker.worker_id _ _ w'.memory m _ queues'
                  (place_task-Enqueued clock worker.worker_id task_id task_info job w')),
          ),
          rw (named, sym drawn)
              (place_task-Owned clock worker.worker_id task_id task_info job stored w'
                (λ e'. ground (arith, eq_iff worker.worker_id "")) stored'),
        )
      ]

  dispatch_among-Dispatched :
      (clock : Clock) (candidates : List Worker) (task_info job stored : Job) (ws : List Worker)
      (w : World)
      → get_job_state (id_of job) w.memory ≡ some stored
      → All (Chosen matching config cached uuid injected to_dict candidates task_info job) ws
      → let left =
          dispatch_among matching config cached uuid injected to_dict clock job task_info ws w in
        left.0 ≡ none → Dispatched clock candidates task_info job w.memory w.drawn left
  unfolding get_job_state
  dispatch_among-Dispatched clock candidates task_info job stored [] w found h e = cc
  dispatch_among-Dispatched clock candidates task_info job stored (worker ∷ ws) w found h e =
      let strategy = text_or_empty (some (get_or "dispatch_strategy" (text "default") task_info)) in
      let task_type = text_or_empty (get "type" task_info) in
      let max_cost = number_of (get "max_cost" task_info) in
      let (selected, m) =
        select matching config cached uuid injected to_dict strategy task_type max_cost
          (worker ∷ ws) w.memory in
      let (jobs, queues) = select-kept strategy task_type max_cost (worker ∷ ws) w.memory in
      dispatch_to-Dispatched clock candidates task_info job stored selected w.memory
        (record w { memory = m }) (ap (get (id_of job)) jobs ∙ found) queues
        (select-Holds matching config cached uuid injected to_dict
          (Chosen matching config cached uuid injected to_dict candidates task_info job) strategy
          task_type max_cost (worker ∷ ws) w.memory h)
        e

  -- A dispatch of a stored job that does not raise. One worker of those that the cache gives for the
  -- skill has one task more in its queue, with the task's priority, and the queues of the others are
  -- as they were. What it is sent names the job and the task, under the task's identifier or the one
  -- that was drawn, with the task's type and parameters. The worker complies with the requirements
  -- of the task, asks no more than the maximum cost, and has the least reputation that is trusted or
  -- more. In the stored job it owns the task, and no other worker does.
  pub dispatch-Dispatched :
      (clock : Clock) (task_info job stored : Job) (w : World)
      → get_job_state (id_of job) w.memory ≡ some stored
      → let candidates =
          capable matching config cached uuid injected to_dict clock.mono
            (text_or_empty (get "type" task_info))
            w.memory in
        let left = dispatch matching config cached uuid injected to_dict clock job task_info w in
        left.0 ≡ none → Dispatched clock candidates task_info job w.memory w.drawn left
  unfolding dispatch
  dispatch-Dispatched clock task_info job stored w found e =
      let task_type = text_or_empty (get "type" task_info) in
      let candidates =
        capable matching config cached uuid injected to_dict clock.mono task_type w.memory in
      let ws =
        eligible matching config cached uuid injected to_dict task_type task_info job candidates in
      elim (Bool-cases (str_eq task_type "")) [
        | inl empty ↦ absurd (ground arith)
        | inr typed ↦ rw typed (
            dispatch_among-Dispatched clock candidates task_info job stored ws w found
              (eligible-All matching config cached uuid injected to_dict task_info job candidates)
              (else_raises (str_eq task_type "") _ _ typed e))
      ]
