-- ===== src/Postgres/Commits.antt =====
-- Sequences of transactions of the queue.
pub mod History
pub mod Over
use imagin.Prelude.{ℕ, String, Bool, Option, none, some, List, [], ◌∷◌}
use imagin.Prelude.Json.{Json}
use imagin.Queue.Job.{QueuedJob}
use imagin.Postgres.Tables.{Database}
use imagin.Postgres.Claim.{enqueue, claim_next, claim_next_with_lease}
use imagin.Postgres.Marks.{
  mark_running, mark_succeeded, mark_failed, mark_retry_wait, set_prompt_id, renew_lease, cancel,
}

-- A method that changes the database, with its arguments.
pub data Transaction : Type 0 where
  enqueues : QueuedJob → Transaction
  claims : (ℕ → Bool) → ℕ → Option (List String) → ℕ → Transaction
  claims_with_lease : (ℕ → Bool) → ℕ → String → ℕ → Option (List String) → ℕ → Transaction
  marks_running : ℕ → Transaction
  marks_succeeded : ℕ → Json → Transaction
  marks_failed : ℕ → String → Option String → Transaction
  marks_retry_wait : ℕ → String → Option String → Option ℕ → ℕ → Transaction
  sets_prompt_id : ℕ → String → Transaction
  renews_lease : ℕ → ℕ → Transaction
  cancels : ℕ → Transaction

-- A transaction that raises is rolled back.
abbrev pub or_rolled_back : Database → Option Database → Database
or_rolled_back db none = db
or_rolled_back db (some db') = db'

-- The database afterwards; `now` is its clock, and `clock` that of the process.
unfoldable pub commit : ℕ → ℕ → Transaction → Database → Database
commit now clock (enqueues job) db = or_rolled_back db (enqueue job db)
commit now clock (claims locked capacity kinds max_active) db =
    (claim_next now clock locked capacity kinds max_active db).db
commit now clock (claims_with_lease locked capacity owner lease kinds max_active) db =
    (claim_next_with_lease now clock locked capacity owner lease kinds max_active db).db
commit now clock (marks_running id) db = mark_running now id db
commit now clock (marks_succeeded id result) db = mark_succeeded now id result db
commit now clock (marks_failed id code detail) db = mark_failed now id code detail db
commit now clock (marks_retry_wait id code detail delay draw) db =
    mark_retry_wait now clock id code detail delay draw db
commit now clock (sets_prompt_id id prompt_id) db = set_prompt_id id prompt_id db
commit now clock (renews_lease id lease) db = renew_lease clock id lease db
commit now clock (cancels id) db = (cancel now id db).0

unfoldable pub commit_all : List (ℕ × ℕ × Transaction) → Database → Database
unfolding commit
commit_all [] db = db
commit_all ((now, clock, t) ∷ rest) db = commit_all rest (commit now clock t db)
