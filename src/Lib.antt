-- ===== src/Lib.antt =====
-- Imagin4's backend admits image generation jobs into a queue, a scheduler claims them and submits
-- them to image backends, and a reconciler settles them by the backends' answers. This library models
-- the job domain, the in-memory queue and the one on Postgres, both services, the clients of the image
-- backends, the limits of requests, and the chat's rules and confirmations.
--
-- The parts and their sources, below backend/app:
--   Jobs.StateMachine   domain/jobs/state_machine.py: `can_transition`, `request_cancel`
--   Jobs.Retry          domain/jobs/retry.py: `is_retryable`, `compute_backoff_seconds`
--   Jobs.Registry       domain/jobs/workflow_registry.py: the workflows and the kinds of each backend
--   Jobs.Profiles       domain/jobs/comfy_profiles.py: `build_profiles`, `resolve_profile_key`
--   Jobs.Overrides      domain/jobs/comfy_overrides.py: `validate_overrides`, `apply_overrides`
--   Jobs.Idempotency    domain/jobs/idempotency.py: `check_idempotency`
--   Queue               adapters/queue/__init__.py: `InMemoryJobQueue`, a dictionary of jobs in
--                       insertion order; a method is a function from the queue to the new queue
--                       (Queue.Store: the dictionary, Queue.Order: the sort, Queue.Claim: the claims,
--                       Queue.Marks: changes of one job, Queue.Counts: the methods that only read,
--                       Queue.Calls: sequences of calls)
--   Postgres            adapters/queue/postgres.py, over the rows of db/models.py: a method is a
--                       function on the tables (Postgres.Tables: the rows, Postgres.Events and
--                       Postgres.Attempts: the log and the attempts of a job, Postgres.Claim: enqueue
--                       and both claims, Postgres.Marks: changes of one job, Postgres.Reads: the
--                       methods that only read, Postgres.Commits: sequences of transactions)
--   Contract            what both queues promise of the calls that settle a job: a record of operations
--                       and a law, which Contract.InMemory and Contract.Durable fill
--   Admission           domain/jobs/admission.py: `admit_generation_job`, with the queue passed on
--   Services.Scheduler  services/scheduler.py: capacities, the claims of a tick, a dispatch in the two
--                       parts before and after its submission
--   Services.Reconciler services/reconciler.py: `run_once` and what it calls
--   Comfy.MultiWorker   adapters/comfyui/multi_worker.py: every method
--   Comfy.Live          adapters/comfyui/live.py: sizes, graphs, `submit`, `get_status`, `cancel`
--   Comfy.Routing       adapters/routing_comfyui.py: every method
--   Jobs.Fairness       domain/jobs/fairness.py; Workers: domain/workers/scoring.py
--   RateLimit           core/rate_limit.py: `check_rate_limit`, `AdmissionGate`
--   Chat.PendingActions domain/chat/pending_actions.py
--   Chat.Confirm        api/v1/chat_router.py: `confirm_pending_action` and `cancel_pending_action`, as
--                       steps of requests between their statements on the database
--   Chat.Routing        domain/chat/routing.py and decision_service.py: from a proposal to a step
--   Config              core/config.py: the fields of `Settings` that these read
-- Prelude holds what they share: lists and tests over the native numbers, JSON values, `str.strip`,
-- tables with SQL's updates, and `Python`, the parameter for Python's floats and conversions.
--
-- Conventions. Times are microseconds, and the clock is an argument; a new identifier is one too.
-- Identifiers are numbers and priorities are natural numbers. A job that several places share is one
-- entry of the dictionary. An exception is a value of a result type. `json.dumps`, SHA-256, `int`,
-- `float`, `str` and the workers' answers are parameters. The jitter of a backoff is an argument, the
-- draw. The loop of `weighted_round_robin_order` takes a number of rounds, and the deepest queue is
-- enough of them; all else is structural recursion, so no fuel is needed.
--
-- In Postgres a transaction is one step, and one that raises changes nothing. The database's clock and
-- the process's are two arguments. The rows that other transactions hold, which SKIP LOCKED leaves out,
-- are an argument of a claim. ORDER BY leaves rows of equal rank in the order of the table. Priorities
-- with their age are held in 1/120000000, so that they are exact; scores of workers are exact fractions.
-- Redis, the ComfyUI server and pydantic's validation are parameters, with what is assumed of them in
-- RateLimit.Answers.Answers and Chat.Routing.Paid.IsStrict.
--
-- Not modelled: the rest of the HTTP API and its authentication, the language model clients, the
-- download of images from ComfyUI, object storage, the other tables and the migrations, the services'
-- loops, signal handlers, heartbeat and logging, and the frontend; they are input and output, or stand
-- on a database or a network. How transactions interleave within Postgres is the database's: only whole
-- ones are steps here.
pub mod Admission
pub mod Chat
pub mod Comfy
pub mod Config
pub mod Contract
pub mod Jobs
pub mod Postgres
pub mod Prelude
pub mod Queue
pub mod RateLimit
pub mod Services
pub mod Workers
