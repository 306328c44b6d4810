-- ===== src/Postgres/Events/Log.antt =====
-- The numbers of the events over any sequence of transactions.
use imagin.Prelude.{
  if_both, ℕ, zero, suc, ◌+◌, String, inl, inr, Bool, Option, none, some, List, [], ◌∷◌, leb,
  Bool-cases, Option-cases, any,
}
use imagin.Prelude.Json.{end}
use imagin.Prelude.Table.{List-cases}
use imagin.Jobs.Registry.{WorkflowDefinition, registry}
use imagin.Queue.Job.{QueuedJob}
use imagin.Postgres.Tables.{JobRow, Database, row_of, no_rows}
use imagin.Postgres.Events.Numbers.{IsNumbered, append_event-IsNumbered}
use imagin.Postgres.Marks.{
  update_open, update_attempt, opens, put_back, mark_running, mark_succeeded, mark_failed,
  mark_retry_wait, cancel, set_prompt_id, renew_lease,
}
use imagin.Postgres.Claim.{
  enqueue, insert_row, clashes, workflow_of, candidates, claim_rows, claim_batch, claim_singly,
  claim, claim_next, claim_next_with_lease, finalize_claimed_row, finalize_all,
}
use imagin.Postgres.Claim.Prompts.{eligible}
use imagin.Postgres.Commits.{
  Transaction, enqueues, claims, claims_with_lease, marks_running, marks_succeeded, marks_failed,
  marks_retry_wait, sets_prompt_id, renews_lease, cancels, commit, commit_all, or_rolled_back,
}

-- The events of the job in the database.
abbrev pub Logs : ℕ → Database → Type 0
Logs k db = IsNumbered k db.events

insert-Logs :
    (k : ℕ) (job : QueuedJob) (o : Option WorkflowDefinition) (db : Database)
    → Logs k db
    → Logs k (or_rolled_back db (insert_row job o db))
insert-Logs k job none db h = h
insert-Logs k job (some w) db h = elim (Bool-cases (any (clashes job) db.jobs)) [
  | inl e ↦ rw e h
  | inr e ↦ rw e (append_event-IsNumbered k job.id "created" end _ h)
]

finalize_all-Logs :
    (now k : ℕ) (owner : String) (expires : ℕ) (rs : List JobRow) (db : Database)
    → Logs k db
    → Logs k (finalize_all now owner expires rs db)
unfolding finalize_all finalize_claimed_row
finalize_all-Logs now k owner expires [] db h = h
finalize_all-Logs now k owner expires (r ∷ rs) db h =
    finalize_all-Logs now k owner expires rs (finalize_claimed_row now owner expires r db)
      (append_event-IsNumbered k r.id "dispatched" _ _ h)

rows-Logs :
    (now k : ℕ) (owner : String) (expires : ℕ) (chosen : List JobRow) (db : Database)
    → Logs k db
    → Logs k (claim_rows now owner expires chosen db).db
unfolding claim_rows
rows-Logs now k owner expires chosen db h = finalize_all-Logs now k owner expires _ _ h

singly-Logs :
    (now k : ℕ) (locked : ℕ → Bool) (n : ℕ) (kinds : Option (List String)) (m : ℕ) (owner : String)
    (expires : ℕ) (db : Database)
    → Logs k db
    → Logs k (claim_singly now locked n kinds m owner expires db).db
unfolding claim_singly
singly-Logs now k locked zero kinds m owner expires db h = h
singly-Logs now k locked (suc n) kinds m owner expires db h =
    elim (List-cases (candidates now (eligible now locked kinds m db.jobs) db.jobs)) [
      | inl e ↦ rw (e, claim_singly) h
      | inr (best, rest, e) ↦
          rw (e, claim_singly)
            (singly-Logs now k locked n kinds m owner expires
              (claim_rows now owner expires (best ∷ []) db).db
              (rows-Logs now k owner expires (best ∷ []) db h))
    ]

claim-Logs :
    (now clock k : ℕ) (locked : ℕ → Bool) (n : ℕ) (kinds : Option (List String)) (owner : String)
    (lease m : ℕ) (db : Database)
    → Logs k db
    → Logs k (claim now clock locked n kinds owner lease m db).db
unfolding claim claim_batch
claim-Logs now clock k locked n kinds owner lease m db h = elim (Bool-cases (leb n 0)) [
  | inl e ↦ rw e h
  | inr e ↦ rw e (elim (Bool-cases (leb m 0)) [
    | inl f ↦ rw f (rows-Logs now k owner (clock + lease) _ db h)
    | inr f ↦ rw f (singly-Logs now k locked n kinds m owner (clock + lease) db h)
  ])
]

back-Logs :
    (now clock k id : ℕ) (code : String) (detail : Option String) (delay : ℕ) (db : Database)
    → Logs k db
    → Logs k (put_back now clock id code detail delay db)
unfolding put_back update_open update_attempt
back-Logs now clock k id code detail delay db h =
    if_both (Logs k) (opens (row_of id db.jobs)) _ _ (append_event-IsNumbered k id _ _ _ h) h

cancel-Logs : (now k id : ℕ) (db : Database) → Logs k db → Logs k (cancel now id db).0
unfolding cancel update_open
cancel-Logs now k id db h = elim (Bool-cases (opens (row_of id db.jobs))) [
  | inl e ↦ rw e (append_event-IsNumbered k id _ _ _ h)
  | inr e ↦ rw e h
]

commit-Logs :
    (now clock k : ℕ) (t : Transaction) (db : Database) → Logs k db → Logs k (commit now clock t db)
unfolding commit enqueue claim_next claim_next_with_lease mark_running set_prompt_id renew_lease
    mark_succeeded mark_failed mark_retry_wait update_open update_attempt
commit-Logs now clock k (enqueues job) db h = insert-Logs k job (workflow_of job.kind registry) db h
commit-Logs now clock k (claims locked n kinds m) db h =
    claim-Logs now clock k locked n kinds "unleased" 300000000 m db h
commit-Logs now clock k (claims_with_lease locked n owner lease kinds m) db h =
    claim-Logs now clock k locked n kinds owner lease m db h
commit-Logs now clock k (marks_running id) db h = h
commit-Logs now clock k (marks_succeeded id result) db h =
    if_both (Logs k) (opens (row_of id db.jobs)) _ _ (append_event-IsNumbered k id _ _ _ h) h
commit-Logs now clock k (marks_failed id code detail) db h =
    if_both (Logs k) (opens (row_of id db.jobs)) _ _ (append_event-IsNumbered k id _ _ _ h) h
commit-Logs now clock k (marks_retry_wait id code detail d draw) db h =
    elim (Option-cases (row_of id db.jobs)) [
      | inl e ↦ rw (e, mark_retry_wait) h
      | inr (x, e) ↦ rw (e, mark_retry_wait) (back-Logs now clock k id code detail _ db h)
    ]
commit-Logs now clock k (sets_prompt_id id prompt_id) db h = h
commit-Logs now clock k (renews_lease id lease) db h = h
commit-Logs now clock k (cancels id) db h = cancel-Logs now k id db h

commit_all-Logs :
    (k : ℕ) (history : List (ℕ × ℕ × Transaction)) (db : Database)
    → Logs k db
    → Logs k (commit_all history db)
unfolding commit_all
commit_all-Logs k [] db h = h
commit_all-Logs k ((now, clock, t) ∷ rest) db h =
    commit_all-Logs k rest (commit now clock t db) (commit-Logs now clock k t db h)

-- Whatever transactions came before, starting from empty tables: the events of a job have the
-- sequence numbers 1, 2, 3 and so on, in the order in which they were written, with none left out.
pub history-Logs :
    (history : List (ℕ × ℕ × Transaction)) (id : ℕ) → Logs id (commit_all history no_rows)
unfolding no_rows
history-Logs history id = commit_all-Logs id history no_rows tt
