-- ===== src/Queue/Fixtures.antt =====
-- Jobs and queues for the examples.
use imagin.Prelude.{ℕ, List, [], ◌∷◌, none}
use imagin.Prelude.Json.{object, end}
use imagin.Jobs.StateMachine.{State, queued, running, succeeded}
use imagin.Queue.{JobQueue}
use imagin.Queue.Job.{QueuedJob}

abbrev pub job_of : ℕ → ℕ → State → ℕ → QueuedJob
job_of id user_id state queued_at = record {
  id = id;
  user_id = user_id;
  kind = "image_basic";
  state = state;
  priority = 0;
  effective_priority = 0;
  input_payload = object end;
  idempotency_key = "key";
  queued_at = queued_at;
  current_attempt = 2;
  max_attempts = 3;
  assigned_worker_id = none;
  error_code = none;
  error_detail = none;
  result = none;
  lease_owner = none;
  lease_expires_at = none;
  prompt_id = none;
  conversation_id = none;
  available_at = none;
}

abbrev pub early : QueuedJob
early = job_of 1 7 queued 10

abbrev pub late : QueuedJob
late = job_of 2 7 queued 20

abbrev pub busy : QueuedJob
busy = job_of 3 7 running 5

abbrev pub over : QueuedJob
over = job_of 4 8 succeeded 1

abbrev pub four : List QueuedJob
four = early ∷ late ∷ busy ∷ over ∷ []

abbrev pub queue : JobQueue
queue = record { jobs = four; order = 1 ∷ 2 ∷ 3 ∷ 4 ∷ [] }
