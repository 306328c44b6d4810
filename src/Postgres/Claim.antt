-- ===== src/Postgres/Claim.antt =====
-- `enqueue`, and the claims: `_claim` and `_finalize_claimed_row`.
pub mod Chosen
pub mod Finalized
pub mod Fresh
pub mod Rounds
pub mod Prompts
pub mod Cap
use imagin.Prelude.{
  ℕ, zero, suc, ◌+◌, ◌*◌, String, Bool, true, not, ◌&&◌, ◌||◌, Option, none, some, List, [], ◌∷◌,
  ◌++◌, ◌==◌, str_eq, ltb, leb, if◌then◌else◌, any, filter, count, contains,
}
use imagin.Prelude.Int.{pos}
use imagin.Prelude.Json.{end, field, integer}
use imagin.Prelude.Table.{update_where, take, order_by}
use imagin.Jobs.StateMachine.{dispatched}
use imagin.Jobs.Registry.{WorkflowDefinition, registry}
use imagin.Queue.Job.{QueuedJob}
use imagin.Postgres.Tables.{JobRow, AttemptRow, Database, in_backlog, in_flight}
use imagin.Postgres.Events.{append_event}

-- `_resolve_workflow_defaults`: the first workflow of the name; `none` is the `ValueError`.
unfoldable pub workflow_of : String → List WorkflowDefinition → Option WorkflowDefinition
workflow_of kind [] = none
workflow_of kind (w ∷ ws) = if str_eq w.name kind then some w else workflow_of kind ws

-- `job.available_at or job.queued_at`
abbrev pub available_or : Option ℕ → ℕ → ℕ
available_or none queued_at = queued_at
available_or (some t) queued_at = t

abbrev pub new_row : QueuedJob → WorkflowDefinition → JobRow
new_row job w = record {
  id = job.id;
  user_id = job.user_id;
  conversation_id = job.conversation_id;
  kind = job.kind;
  model_family = w.model_family;
  workflow_version = w.version;
  state = job.state;
  priority = job.priority;
  effective_priority = job.effective_priority;
  idempotency_key = job.idempotency_key;
  input_payload = job.input_payload;
  assigned_worker_id = none;
  current_attempt = job.current_attempt;
  max_attempts = job.max_attempts;
  queued_at = job.queued_at;
  available_at = available_or job.available_at job.queued_at;
  started_at = none;
  finished_at = none;
  cancel_requested_at = none;
  error_code = none;
  error_detail = none;
}

-- The primary key, and `uq_generation_jobs_user_idem_kind`.
abbrev pub clashes : QueuedJob → JobRow → Bool
clashes job r =
    r.id == job.id
    || (r.user_id == job.user_id
        && str_eq r.idempotency_key job.idempotency_key
        && str_eq r.kind job.kind)

abbrev pub insert_row : QueuedJob → Option WorkflowDefinition → Database → Option Database
insert_row job none db = none
insert_row job (some w) db =
    if any (clashes job) db.jobs
    then none
    else some (append_event job.id "created" end (record db { jobs = new_row job w ∷ db.jobs }))

-- `none` is the `ValueError`, or the database's refusal of a second row with a key.
unfoldable pub enqueue : QueuedJob → Database → Option Database
enqueue job db = insert_row job (workflow_of job.kind registry) db

-- `kind IN :kinds`, where there is such a clause
abbrev pub of_kinds : Option (List String) → JobRow → Bool
of_kinds none r = true
of_kinds (some kinds) r = contains r.kind kinds

-- `priority + age_minutes * 0.5`, in steps of 1/120000000: the age counts in microseconds. A row's
-- age may be negative, so each side of a comparison has the other row's `queued_at`.
abbrev pub scaled : ℕ → JobRow → JobRow → ℕ
scaled now r other = r.priority * 120000000 + now + other.queued_at

-- `ORDER BY priority + … DESC, queued_at ASC`
unfoldable pub ranks_before : ℕ → JobRow → JobRow → Bool
ranks_before now a b =
    ltb (scaled now b a) (scaled now a b)
    || (scaled now a b == scaled now b a && leb a.queued_at b.queued_at)

-- The `WHERE` of the candidates. `locked` are the rows that other transactions hold: SKIP LOCKED.
abbrev pub is_candidate : ℕ → (ℕ → Bool) → Option (List String) → JobRow → Bool
is_candidate now locked kinds r =
    in_backlog r && leb r.available_at now && of_kinds kinds r && not (locked r.id)

unfoldable pub candidates : ℕ → (JobRow → Bool) → List JobRow → List JobRow
candidates now p rows = order_by (ranks_before now) (filter p rows)

abbrev pub row_dispatched : JobRow → JobRow
row_dispatched r = record r { state = dispatched }

-- `id IN (…)`
abbrev pub among : List JobRow → JobRow → Bool
among chosen r = any (λ c. c.id == r.id) chosen

abbrev pub new_attempt : ℕ → String → ℕ → ℕ → ℕ → AttemptRow
new_attempt now owner expires_at id attempt_no = record {
  job_id = id;
  attempt_no = attempt_no;
  state = dispatched;
  lease_owner = owner;
  lease_expires_at = expires_at;
  comfy_prompt_id = none;
  submitted_at = now;
  finished_at = none;
  error_code = none;
  metrics = end;
}

abbrev pub same_attempt : ℕ → ℕ → AttemptRow → Bool
same_attempt id attempt_no a = a.job_id == id && a.attempt_no == attempt_no

abbrev pub with_lease : String → ℕ → AttemptRow → AttemptRow
with_lease owner expires_at a = record a { lease_owner = owner; lease_expires_at = expires_at }

-- `INSERT INTO job_attempts … ON CONFLICT (job_id, attempt_no) DO UPDATE`
unfoldable pub upsert_attempt : ℕ → String → ℕ → ℕ → ℕ → List AttemptRow → List AttemptRow
upsert_attempt now owner expires_at id attempt_no table =
    if any (same_attempt id attempt_no) table
    then update_where (same_attempt id attempt_no) (with_lease owner expires_at) table
    else new_attempt now owner expires_at id attempt_no ∷ table

-- `_finalize_claimed_row`
unfoldable pub finalize_claimed_row : ℕ → String → ℕ → JobRow → Database → Database
finalize_claimed_row now owner expires_at r db =
    append_event r.id "dispatched" (field "attempt_no" (integer (pos (r.current_attempt + 1))) end)
      (record db {
        attempts = upsert_attempt now owner expires_at r.id (r.current_attempt + 1) db.attempts;
      })

unfoldable pub finalize_all : ℕ → String → ℕ → List JobRow → Database → Database
finalize_all now owner expires_at [] db = db
finalize_all now owner expires_at (r ∷ rs) db =
    finalize_all now owner expires_at rs (finalize_claimed_row now owner expires_at r db)

-- The database after a claim, and the rows that are returned.
pub record Claimed : Type 0 where
  pub rows : List JobRow
  pub db : Database

-- `UPDATE generation_jobs SET state = 'dispatched' WHERE id IN (…) RETURNING …`, finalized.
unfoldable pub claim_rows : ℕ → String → ℕ → List JobRow → Database → Claimed
claim_rows now owner expires_at chosen db =
    let jobs = update_where (among chosen) row_dispatched db.jobs in
    let rows = filter (among chosen) jobs in
    record { rows = rows; db = finalize_all now owner expires_at rows (record db { jobs = jobs }) }

-- Without a cap: one statement for all rows.
unfoldable pub claim_batch :
    ℕ → (ℕ → Bool) → ℕ → Option (List String) → String → ℕ → Database → Claimed
claim_batch now locked capacity kinds owner expires_at db =
    claim_rows now owner expires_at
      (take capacity (candidates now (is_candidate now locked kinds) db.jobs)) db

-- `(SELECT count(*) … WHERE g2.user_id = … AND g2.state IN ('dispatched', 'running')) < :max`
abbrev pub below_cap : ℕ → List JobRow → JobRow → Bool
below_cap max_active jobs r =
    ltb (count (λ g. g.user_id == r.user_id && in_flight g) jobs) max_active

abbrev pub then_rows : List JobRow → Claimed → Claimed
then_rows rows c = record c { rows = rows ++ c.rows }

-- With a cap: one row for each round, up to the capacity; the lock serializes these claims.
unfoldable pub claim_singly :
    ℕ → (ℕ → Bool) → ℕ → Option (List String) → ℕ → String → ℕ → Database → Claimed
claim_singly now locked zero kinds max_active owner expires_at db = record { rows = []; db = db }
claim_singly now locked (suc n) kinds max_active owner expires_at db =
    elim (candidates now (λ r. is_candidate now locked kinds r && below_cap max_active db.jobs r)
      db.jobs) [
        | [] ↦ record { rows = []; db = db }
        | best ∷ _ ↦
            let c = claim_rows now owner expires_at (best ∷ []) db in
            then_rows c.rows (claim_singly now locked n kinds max_active owner expires_at c.db)
      ]

-- `_claim`; `now` is the database's clock, and `clock` the process's.
unfoldable pub claim :
    ℕ → ℕ → (ℕ → Bool) → ℕ → Option (List String) → String → ℕ → ℕ → Database → Claimed
claim now clock locked capacity kinds owner lease max_active db =
    if leb capacity 0
    then record { rows = []; db = db }
    else if leb max_active 0
    then claim_batch now locked capacity kinds owner (clock + lease) db
    else claim_singly now locked capacity kinds max_active owner (clock + lease) db

-- `claim_next_with_lease`
unfoldable pub claim_next_with_lease :
    ℕ → ℕ → (ℕ → Bool) → ℕ → String → ℕ → Option (List String) → ℕ → Database → Claimed
claim_next_with_lease now clock locked capacity owner lease kinds max_active db =
    claim now clock locked capacity kinds owner lease max_active db

-- `claim_next`, with the lease of `_DEFAULT_UNLEASED_LEASE_SECONDS`
unfoldable pub claim_next : ℕ → ℕ → (ℕ → Bool) → ℕ → Option (List String) → ℕ → Database → Claimed
claim_next now clock locked capacity kinds max_active db =
    claim now clock locked capacity kinds "unleased" 300000000 max_active db
