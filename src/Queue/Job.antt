-- ===== src/Queue/Job.antt =====
-- The `QueuedJob` record of backend/app/adapters/queue/__init__.py. Identifiers are numbers, a time
-- is a count of microseconds, and a priority is a count of the smallest step the floats take.
use imagin.Prelude.{ℕ, String, Bool, Option, List, [], ◌∷◌, ◌&&◌, true, none, some, leb, contains}
use imagin.Prelude.Json.{Json}
use imagin.Jobs.StateMachine.{
  State, queued, dispatched, running, retry_wait, terminal_states, member,
}

pub record QueuedJob : Type 0 where
  pub id : ℕ
  pub user_id : ℕ
  pub kind : String
  pub state : State
  pub priority : ℕ
  pub effective_priority : ℕ
  pub input_payload : Json
  pub idempotency_key : String
  pub queued_at : ℕ
  pub current_attempt : ℕ
  pub max_attempts : ℕ
  pub assigned_worker_id : Option ℕ
  pub error_code : Option String
  pub error_detail : Option String
  pub result : Option Json
  pub lease_owner : Option String
  pub lease_expires_at : Option ℕ
  pub prompt_id : Option String
  pub conversation_id : Option ℕ
  pub available_at : Option ℕ

-- `j.state in _BACKLOG_STATES`
abbrev pub is_backlog : QueuedJob → Bool
is_backlog j = member j.state (queued ∷ retry_wait ∷ [])

-- `j.state in ("dispatched", "running")`
abbrev pub is_active : QueuedJob → Bool
is_active j = member j.state (dispatched ∷ running ∷ [])

-- `job.state in self._TERMINAL_STATES`
abbrev pub is_finished : QueuedJob → Bool
is_finished j = member j.state terminal_states

-- `kinds is None or j.kind in kinds`
abbrev pub of_kinds : Option (List String) → QueuedJob → Bool
of_kinds none j = true
of_kinds (some kinds) j = contains j.kind kinds

-- `j.available_at is None or j.available_at <= now`
abbrev pub available_from : Option ℕ → ℕ → Bool
available_from none now = true
available_from (some t) now = leb t now

-- The condition of the candidates of `claim_next`.
abbrev pub is_claimable : Option (List String) → ℕ → QueuedJob → Bool
is_claimable kinds now j = is_backlog j && of_kinds kinds j && available_from j.available_at now
