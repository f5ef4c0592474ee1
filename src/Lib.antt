-- ===== src/Lib.antt =====
-- A verification library of avtomatika, an orchestrator of jobs: blueprints say which states a job
-- passes through, handlers of these states decide on the next action, and workers do the tasks.
--
-- The parts, with the files that model them (paths of the program are below src/avtomatika):
--   * Storage.antt and its children model storage/memory.py, `MemoryStorage`: the record `Memory`
--     has one field for each container, and a method is a function from `Memory` to its result and
--     the new `Memory`, under the method's name. Each method holds `_lock` for its whole body, so a
--     method is one step. `dequeue_task_for_worker` waits outside the lock; what the store becomes
--     meanwhile is its argument `during`. Storage/Operations.antt names the calls, and
--     Storage/Invariant.antt holds what any sequence of calls keeps.
--   * Actions.antt models context.py, `ActionFactory`: the pending action, the context's updates and
--     the events of one run of a handler. The `RuntimeError` of a second action is `none`.
--   * Blueprint.antt and its children model blueprint.py: the decorators that register handlers, the
--     choice of the handler for a state, and `validate_integrity`. What `inspect` and `ast` read in
--     a handler's source is the parameter `scan`.
-- * Executor.antt and its children model executor.py, `JobExecutor`, with `create_background_job`
-- and `send_job_webhook` of engine.py: the record `World` is the store with what leaves the
-- orchestrator (history events, webhooks, callbacks), and `_process_job` and each `_handle_…` is a
-- function on it, under the method's name. Executor/Process.antt leads a job from the message to
-- its outcome, Executor/Outcomes.antt and Executor/Dispatching.antt are the outcomes. The run of a
-- handler, any dispatcher's `dispatch`, rxon's schema check and its text for a finished job, and
-- `uuid4` are parameters. A state that is read from the store is a copy, as with Redis.
--   * Orchestrator.antt and its children model the other operations of engine.py's
--     `OrchestratorEngine` on jobs: `handle_task_failure`, `handle_job_timeout` and `cancel_job`.
--   * WorkerService.antt and its children model services/worker_service.py, `WorkerService`, each
--     operation in a file of its own: the check of a sender in WorkerService.antt, registration and
--     heartbeats in WorkerService/Enrolment.antt, the next task in WorkerService/Pickup.antt, results
--     in WorkerService/Results.antt and WorkerService/Outcomes.antt, events in
--     WorkerService/Events.antt and tokens in WorkerService/TokenService.antt. The dict
--     that `process_task_result` reads is the in-memory store's own: the time of a pick-up that it
--     writes stays, whether the result is accepted or not. The models and the constants of the
--     package rxon are the fields of the parameter `rxon`, and Python's `int`, `fnmatch` and
--     `lower` and the decryption of tokens those of `python`.
--   * Watcher.antt and its children model watcher.py: one round under the lock, over the jobs and the
--     branches whose time is over. The pauses between the rounds are left out.
--   * Scheduler.antt and its child model scheduler.py: which schedules start a job, and when. The
--     moment in the time zone of the configuration is a record of what `strftime` gives.
--   * Security.antt and its child model security.py, the checks of a worker's and a client's
--     credentials. The mode, the tokens of the configuration, `sha256` and the decryption of tokens
--     are parameters; an empty text stands for a header or an identity that is missing.
--   * Api.antt and its child model, of api/handlers.py, what a client sees of a job:
--     `_filter_job_state`.
--   * Middleware.antt models ratelimit.py and quota.py, which let a request through or refuse it.
--   * Dispatcher.antt and its children model dispatcher.py: the strategies that choose a worker, the
--     compliance filter `_check_worker_compliance` in Dispatcher/Compliance.antt, and `dispatch` in
--     Dispatcher/Dispatching.antt. rxon's matchers, the cache of workers, `uuid4` and the tracing
--     context are parameters. A refusal's text holds less detail than the code's.
--   * Value.antt and Dict.antt model Python's JSON data and its dicts, which keep insertion order.
-- How they interact: a blueprint's handler receives an `ActionFactory` and fills it; the executor
-- reads the decision and calls the storage, which engine, watcher and workers share. The dispatcher
-- chooses among the workers of the storage, and puts the task into the queue of the chosen one.
--
-- Times are whole milliseconds, an argument `now` of each method that reads the clock. Numbers are
-- unbounded, as in Python; counts that the code keeps at 0 or above are natural numbers, and a
-- task's priority and a worker's load are integers. Loops over containers are recursion on lists.
-- The search for reachable states runs on fuel, one round for the start and one for each
-- transition: a state is put on the stack once at most, so the search ends within it.
--
-- Not modelled: the Redis backend, the history databases, the payload store, telemetry,
-- configuration files and the rest of the web layer stay out, as they call servers and libraries
-- outside the repository.
mod Prelude
pub mod Dict
pub mod Value
pub mod Storage
pub mod Actions
pub mod Blueprint
pub mod Dispatcher
pub mod Security
pub mod Api
pub mod Scheduler
pub mod Middleware
pub mod Executor
pub mod Orchestrator
pub mod Watcher
pub mod WorkerService
pub mod Tests
