-- ===== src/Contract.antt =====
-- The contract of `JobQueue` (backend/app/adapters/queue/__init__.py) for the calls that settle a job,
-- apart from how a queue keeps its jobs: what each call makes of what a reader sees of the job.
pub mod InMemory
pub mod Durable
pub mod Agreement
pub mod Examples
use imagin.Prelude.{
  ℕ, ◌+◌, String, Bool, Option, none, some, List, [], ◌∷◌, ◌==◌, if◌then◌else◌, ◌≡◌,
}
use imagin.Prelude.Json.{Json}
use imagin.Jobs.StateMachine.{
  State, retry_wait, cancelled, succeeded, failed, terminal_states, member,
}

-- What a reader sees of a job.
pub record View : Type 0 where
  pub state : State
  pub current_attempt : ℕ
  pub error_code : Option String
  pub error_detail : Option String

-- The calls, with what they say of the job.
pub data Settlement : Type 0 where
  succeeds : Json → Settlement
  fails : String → Option String → Settlement
  retries : String → Option String → Option ℕ → ℕ → Settlement
  cancels : Settlement

abbrev pub change : Settlement → View → View
change (succeeds result) v = record v { state = succeeded; error_code = none; error_detail = none }
change (fails code detail) v = record v {
  state = failed;
  error_code = some code;
  error_detail = detail;
}
change (retries code detail delay draw) v = record v {
  state = retry_wait;
  current_attempt = v.current_attempt + 1;
  error_code = some code;
  error_detail = detail;
}
change cancels v = record v { state = cancelled }

-- A job that is cancelled, succeeded or failed stays as it is.
unfoldable pub settle : Settlement → View → View
settle s v = if member v.state terminal_states then v else change s v

abbrev pub settle_at : Bool → Settlement → Option View → Option View
settle_at b s none = none
settle_at b s (some v) = some (if b then settle s v else v)

-- A queue that keeps the contract. Each call has the times that the clocks show.
pub record Queue : Type 1 where
  pub Store : Type 0
  pub look : ℕ → Store → Option View
  pub call : ℕ → ℕ → ℕ → Settlement → Store → Store
  pub look-call :
      (k now clock id : ℕ) (s : Settlement) (store : Store)
      → look k (call now clock id s store) ≡ settle_at (id == k) s (look k store)

-- The calls in order: the two times, the job and the settlement.
abbrev pub Script : Type 0
Script = List (ℕ × ℕ × ℕ × Settlement)

module _ (q : Queue) where
  unfoldable pub play : Script → q.Store → q.Store
  play [] store = store
  play ((now, clock, id, s) ∷ rest) store = play rest (q.call now clock id s store)
