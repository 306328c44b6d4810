-- ===== src/Queue.antt =====
-- The in-memory job queue of backend/app/adapters/queue/__init__.py. A method returns the new queue
-- beside its result; `datetime.now(timezone.utc)` is an argument of each call that reads it.
pub mod Job
pub mod Store
pub mod Order
pub mod Claim
pub mod Marks
pub mod Counts
pub mod Calls
pub mod Fixtures
mod Examples
use imagin.Prelude.{ℕ, List, [], ◌∷◌, ◌++◌}
use Job.{QueuedJob}
use Store.{put}

-- `InMemoryJobQueue`: the dictionary of jobs, and the order of the calls of `enqueue`.
pub record JobQueue : Type 0 where
  pub jobs : List QueuedJob
  pub order : List ℕ

unfoldable pub empty : JobQueue
empty = record { jobs = []; order = [] }

unfoldable pub enqueue : QueuedJob → JobQueue → JobQueue
enqueue job q = record { jobs = put job q.jobs; order = q.order ++ job.id ∷ [] }
