-- ===== src/Postgres/Commits/History.antt =====
-- The database after any sequence of transactions on empty tables.
use imagin.Prelude.{ℕ, ◌+◌, String, refl, Bool, Option, List, [], ◌∷◌, arith, All}
use imagin.Postgres.Tables.{Database, no_rows}
use imagin.Jobs.Registry.{registry}
use imagin.Postgres.Attempts.{IsConsistent}
use imagin.Postgres.Attempts.Kept.{
  attempt-IsConsistent, open-IsConsistent, inserted-IsConsistent, succeeded-IsConsistent,
  failed-IsConsistent, retry-IsConsistent, cancelled-IsConsistent,
}
use imagin.Postgres.Marks.{mark_running, set_prompt_id, renew_lease, row_running}
use imagin.Postgres.Claim.{enqueue, workflow_of, claim_next, claim_next_with_lease}
use imagin.Postgres.Claim.Finalized.{IsFresh}
use imagin.Postgres.Claim.Prompts.{claim-IsSound}
use imagin.Postgres.Commits.{
  Transaction, enqueues, claims, claims_with_lease, marks_running, marks_succeeded, marks_failed,
  marks_retry_wait, sets_prompt_id, renews_lease, cancels, commit, commit_all,
}

pub commit-IsConsistent :
    (now clock : ℕ) (t : Transaction) (db : Database)
    → IsConsistent db
    → IsConsistent (commit now clock t db)
unfolding commit enqueue claim_next claim_next_with_lease mark_running set_prompt_id renew_lease
commit-IsConsistent now clock (enqueues job) db c =
    inserted-IsConsistent job (workflow_of job.kind registry) db c
commit-IsConsistent now clock (claims locked n kinds m) db c =
    (claim-IsSound now clock locked n kinds "unleased" 300000000 m db c).consistent
commit-IsConsistent now clock (claims_with_lease locked n owner lease kinds m) db c =
    (claim-IsSound now clock locked n kinds owner lease m db c).consistent
commit-IsConsistent now clock (marks_running id) db c =
    open-IsConsistent id (row_running now) db (λ r. refl) (λ r. ground arith) c
commit-IsConsistent now clock (marks_succeeded id result) db c =
    succeeded-IsConsistent now id result db c
commit-IsConsistent now clock (marks_failed id code detail) db c =
    failed-IsConsistent now id code detail db c
commit-IsConsistent now clock (marks_retry_wait id code detail delay draw) db c =
    retry-IsConsistent now clock id code detail delay draw db c
commit-IsConsistent now clock (sets_prompt_id id prompt_id) db c =
    attempt-IsConsistent id _ db (λ a. (refl, refl)) c
commit-IsConsistent now clock (renews_lease id lease) db c =
    attempt-IsConsistent id _ db (λ a. (refl, refl)) c
commit-IsConsistent now clock (cancels id) db c = cancelled-IsConsistent now id db c

commit_all-IsConsistent :
    (history : List (ℕ × ℕ × Transaction)) (db : Database)
    → IsConsistent db
    → IsConsistent (commit_all history db)
unfolding commit_all
commit_all-IsConsistent [] db c = c
commit_all-IsConsistent ((now, clock, t) ∷ rest) db c =
    commit_all-IsConsistent rest (commit now clock t db) (commit-IsConsistent now clock t db c)

-- Whatever transactions came before, starting from empty tables: job identifiers are distinct, and
-- every attempt belongs to a job and has a number of at most the job's count of attempts, or one more
-- where the job does not wait.
pub history-IsConsistent :
    (history : List (ℕ × ℕ × Transaction)) → IsConsistent (commit_all history no_rows)
unfolding no_rows
history-IsConsistent history =
    commit_all-IsConsistent history no_rows (record { keys = tt; attempts = tt })

-- Whatever transactions came before, starting from empty tables: for each job that a claim returns,
-- the attempt that is read from then on is a new one, numbered after those of before, with no prompt
-- yet and with the owner and the end of the claim's lease.
pub history-claim-IsFresh :
    (history : List (ℕ × ℕ × Transaction)) (now clock : ℕ) (locked : ℕ → Bool) (n : ℕ)
    (owner : String) (lease : ℕ) (kinds : Option (List String)) (m : ℕ)
    → let c =
        claim_next_with_lease now clock locked n owner lease kinds m (commit_all history no_rows) in
      All (IsFresh owner (clock + lease) c.db.attempts) c.rows
unfolding claim_next_with_lease
history-claim-IsFresh history now clock locked n owner lease kinds m =
    (claim-IsSound now clock locked n kinds owner lease m _ (history-IsConsistent history)).fresh
