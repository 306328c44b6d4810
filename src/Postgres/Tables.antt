-- ===== src/Postgres/Tables.antt =====
-- The rows of `generation_jobs`, `job_attempts` and `job_events` (backend/app/db/models.py), without
-- the columns that the queue neither writes nor reads. Identifiers and times are as in Queue.Job.
use imagin.Prelude.{
  ℕ, String, Bool, false, not, ◌&&◌, Option, none, some, List, [], ◌∷◌, ◌==◌, if◌then◌else◌,
}
use imagin.Prelude.Json.{Json, Fields}
use imagin.Prelude.Table.{update_where, max_where}
use imagin.Jobs.StateMachine.{
  State, queued, retry_wait, dispatched, running, terminal_states, member,
}

pub record JobRow : Type 0 where
  pub id : ℕ
  pub user_id : ℕ
  pub conversation_id : Option ℕ
  pub kind : String
  pub model_family : String
  pub workflow_version : String
  pub state : State
  pub priority : ℕ
  pub effective_priority : ℕ
  pub idempotency_key : String
  pub input_payload : Json
  pub assigned_worker_id : Option ℕ
  pub current_attempt : ℕ
  pub max_attempts : ℕ
  pub queued_at : ℕ
  pub available_at : ℕ
  pub started_at : Option ℕ
  pub finished_at : Option ℕ
  pub cancel_requested_at : Option ℕ
  pub error_code : Option String
  pub error_detail : Option String

pub record AttemptRow : Type 0 where
  pub job_id : ℕ
  pub attempt_no : ℕ
  pub state : State
  pub lease_owner : String
  pub lease_expires_at : ℕ
  pub comfy_prompt_id : Option String
  pub submitted_at : ℕ
  pub finished_at : Option ℕ
  pub error_code : Option String
  pub metrics : Fields

pub record EventRow : Type 0 where
  pub job_id : ℕ
  pub sequence_no : ℕ
  pub event_type : String
  pub payload : Fields

pub record Database : Type 0 where
  pub jobs : List JobRow
  pub attempts : List AttemptRow
  pub events : List EventRow

unfoldable pub no_rows : Database
no_rows = record { jobs = []; attempts = []; events = [] }

-- `state IN ('queued', 'retry_wait')`, `_BACKLOG_STATES`
abbrev pub in_backlog : JobRow → Bool
in_backlog r = member r.state (queued ∷ retry_wait ∷ [])

-- `state IN ('dispatched', 'running')`
abbrev pub in_flight : JobRow → Bool
in_flight r = member r.state (dispatched ∷ running ∷ [])

-- `state IN :terminal`, `_TERMINAL_STATES`
abbrev pub is_over : JobRow → Bool
is_over r = member r.state terminal_states

-- `id = :id AND state NOT IN :terminal`
abbrev pub is_open : ℕ → JobRow → Bool
is_open id r = r.id == id && not (is_over r)

-- `WHERE g.id = :id`; identifiers are the primary key.
unfoldable pub row_of : ℕ → List JobRow → Option JobRow
row_of id [] = none
row_of id (r ∷ rs) = if r.id == id then some r else row_of id rs

abbrev pub of_job : ℕ → AttemptRow → Bool
of_job id a = a.job_id == id

-- `SELECT max(attempt_no) FROM job_attempts WHERE job_id = :job_id`
unfoldable pub last_attempt : ℕ → List AttemptRow → Option ℕ
last_attempt id = max_where (of_job id) (λ a. a.attempt_no)

abbrev numbered : Option ℕ → ℕ → Bool
numbered none n = false
numbered (some m) n = n == m

-- `job_id = :job_id AND attempt_no = (SELECT max(attempt_no) …)`
abbrev pub is_last : ℕ → List AttemptRow → AttemptRow → Bool
is_last id table a = a.job_id == id && numbered (last_attempt id table) a.attempt_no

-- `UPDATE job_attempts SET … WHERE` it is the last attempt of the job.
unfoldable pub update_last : ℕ → (AttemptRow → AttemptRow) → List AttemptRow → List AttemptRow
update_last id f table = update_where (is_last id table) f table
