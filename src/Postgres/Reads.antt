-- ===== src/Postgres/Reads.antt =====
-- The methods that only read: `get`, `list_active`, `find_by_idempotency_key`, the counts and
-- `queue_rank`.
use imagin.Prelude.{
  ℕ, String, Bool, ◌&&◌, ◌||◌, Option, none, some, List, [], ◌∷◌, ◌==◌, str_eq, ltb, leb,
  if◌then◌else◌, filter, count, map,
}
use imagin.Prelude.Json.{get}
use imagin.Queue.Job.{QueuedJob}
use imagin.Queue.Counts.{in_conversation}
use imagin.Postgres.Tables.{JobRow, AttemptRow, Database, in_backlog, in_flight, row_of}
use imagin.Postgres.Claim.{of_kinds, scaled}

abbrev pub newer : AttemptRow → Option AttemptRow → Option AttemptRow
newer a none = some a
newer a (some b) = if leb b.attempt_no a.attempt_no then some a else some b

-- `SELECT … FROM job_attempts WHERE job_id = g.id ORDER BY attempt_no DESC LIMIT 1`
unfoldable pub latest : ℕ → List AttemptRow → Option AttemptRow
latest id [] = none
latest id (a ∷ table) = let rest = latest id table in if a.job_id == id then newer a rest else rest

abbrev pub without_attempt : JobRow → QueuedJob
without_attempt r = record {
  id = r.id;
  user_id = r.user_id;
  kind = r.kind;
  state = r.state;
  priority = r.priority;
  effective_priority = r.effective_priority;
  input_payload = r.input_payload;
  idempotency_key = r.idempotency_key;
  queued_at = r.queued_at;
  current_attempt = r.current_attempt;
  max_attempts = r.max_attempts;
  assigned_worker_id = r.assigned_worker_id;
  error_code = r.error_code;
  error_detail = r.error_detail;
  result = none;
  lease_owner = none;
  lease_expires_at = none;
  prompt_id = none;
  conversation_id = none;
  available_at = none;
}

-- `_row_to_queued_job`. The row has neither the conversation nor `available_at`.
unfoldable pub to_queued_job : JobRow → Option AttemptRow → QueuedJob
to_queued_job r none = without_attempt r
to_queued_job r (some a) = record (without_attempt r) {
  result = get "result" a.metrics;
  lease_owner = some a.lease_owner;
  lease_expires_at = some a.lease_expires_at;
  prompt_id = a.comfy_prompt_id;
}

abbrev pub joined : Database → JobRow → QueuedJob
joined db r = to_queued_job r (latest r.id db.attempts)

abbrev joined_row : Database → Option JobRow → Option QueuedJob
joined_row db none = none
joined_row db (some r) = some (joined db r)

unfoldable pub get_job : ℕ → Database → Option QueuedJob
get_job id db = joined_row db (row_of id db.jobs)

unfoldable pub list_active : Database → List QueuedJob
list_active db = map (joined db) (filter in_flight db.jobs)

unfoldable pub first_row : (JobRow → Bool) → List JobRow → Option JobRow
first_row p [] = none
first_row p (r ∷ rs) = if p r then some r else first_row p rs

unfoldable pub find_by_idempotency_key : ℕ → String → String → Database → Option QueuedJob
find_by_idempotency_key user_id key kind db = joined_row db (
    first_row (λ r. r.user_id == user_id && str_eq r.idempotency_key key && str_eq r.kind kind)
      db.jobs)

unfoldable pub count_active : Option (List String) → Database → ℕ
count_active kinds db = count (λ r. in_flight r && of_kinds kinds r) db.jobs

unfoldable pub count_user_backlog : ℕ → Database → ℕ
count_user_backlog user_id db = count (λ r. r.user_id == user_id && in_backlog r) db.jobs

unfoldable pub count_conversation_backlog : ℕ → Database → ℕ
count_conversation_backlog id db =
    count (λ r. in_conversation id r.conversation_id && in_backlog r) db.jobs

unfoldable pub count_global_backlog : Database → ℕ
count_global_backlog db = count in_backlog db.jobs

unfoldable pub count_backlog_for_kinds : Option (List String) → Database → ℕ
count_backlog_for_kinds kinds db = count (λ r. in_backlog r && of_kinds kinds r) db.jobs

-- The `WHERE` of `queue_rank`: strictly before the target.
unfoldable pub is_ahead : ℕ → JobRow → JobRow → Bool
is_ahead now target r =
    ltb (scaled now target r) (scaled now r target)
    || (scaled now r target == scaled now target r && ltb r.queued_at target.queued_at)

abbrev rank_of : ℕ → Option (List String) → Option JobRow → List JobRow → Option ℕ
rank_of now kinds none rows = none
rank_of now kinds (some target) rows =
    if in_backlog target
    then some (count (λ r. in_backlog r && of_kinds kinds r && is_ahead now target r) rows)
    else none

unfoldable pub queue_rank : ℕ → ℕ → Option (List String) → Database → Option ℕ
queue_rank now id kinds db = rank_of now kinds (row_of id db.jobs) db.jobs
