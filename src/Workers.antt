-- ===== src/Workers.antt =====
-- backend/app/domain/workers/scoring.py: which worker gets a job. Times are microseconds.
pub mod Best
mod Examples
use imagin.Prelude.{
  ℕ, ◌+◌, ◌-◌, ◌*◌, String, Bool, true, false, not, Option, none, some, List, [], ◌∷◌, ltb, leb,
  str_eq, if◌then◌else◌, contains, filter, max,
}

pub record WorkerSnapshot : Type 0 where
  pub worker_id : String
  pub status : String
  pub capabilities : List String
  pub max_slots : ℕ
  pub reserved_slots : ℕ
  pub running_slots : ℕ
  pub local_queue_depth : ℕ
  pub last_heartbeat_at : ℕ
  -- in millionths
  pub recent_failure_rate : ℕ
  pub current_model_loaded : Option String

abbrev pub used_slots : WorkerSnapshot → ℕ
used_slots w = w.reserved_slots + w.running_slots

unfoldable pub is_eligible : WorkerSnapshot → String → ℕ → Bool
is_eligible w required_capability now =
    if not (str_eq w.status "online")
    then false
    else if not (contains required_capability w.capabilities)
    then false
    else if ltb 30000000 (now - w.last_heartbeat_at)
    then false
    else if leb w.max_slots (used_slots w)
    then false
    else true

abbrev is_loaded : Option String → String → Bool
is_loaded none target_model = false
is_loaded (some m) target_model = str_eq m target_model

-- The score in millionths, as an exact fraction: the slots give the denominator.
abbrev pub slots : WorkerSnapshot → ℕ
slots w = max w.max_slots 1

unfoldable pub score : WorkerSnapshot → String → ℕ
score w target_model =
    1000000 * used_slots w
    + slots w
      * (100000 * w.local_queue_depth
          + (if is_loaded w.current_model_loaded target_model then 0 else 500000)
          + 2 * w.recent_failure_rate)

abbrev pub is_less : String → WorkerSnapshot → WorkerSnapshot → Bool
is_less target_model a b = ltb (score a target_model * slots b) (score b target_model * slots a)

-- `min(…, key=…)`: the first of the least.
unfoldable pub least : String → WorkerSnapshot → List WorkerSnapshot → WorkerSnapshot
least target_model best [] = best
least target_model best (w ∷ ws) =
    least target_model (if is_less target_model w best then w else best) ws

abbrev pub least_of : String → List WorkerSnapshot → Option WorkerSnapshot
least_of target_model [] = none
least_of target_model (w ∷ ws) = some (least target_model w ws)

unfoldable pub select_worker : List WorkerSnapshot → String → String → ℕ → Option WorkerSnapshot
select_worker workers required_capability target_model now =
    least_of target_model (filter (λ w. is_eligible w required_capability now) workers)
