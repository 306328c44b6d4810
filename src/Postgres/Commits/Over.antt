-- ===== src/Postgres/Commits/Over.antt =====
-- The rows of jobs that are over.
use imagin.Prelude.{
  if_both, ℕ, String, ◌≡◌, refl, ap, ◌∙◌, inl, inr, Bool, true, false, some, List, arith,
  Bool-cases, filter, All, zero, suc, ◌+◌, Option, none, [], ◌∷◌, leb, ◌==◌, Option-cases, any,
}
use imagin.Prelude.Table.{update_where, List-cases, All-take}
use imagin.Jobs.Registry.{WorkflowDefinition, registry}
use imagin.Queue.Job.{QueuedJob}
use imagin.Postgres.Tables.{JobRow, Database, row_of, is_over, is_open, no_rows}
use imagin.Postgres.Rows.{KeepsKey, Holds, row_of-update_where, row_of-id}
use imagin.Postgres.Events.{append_event}
use imagin.Postgres.Attempts.{IsConsistent}
use imagin.Postgres.Marks.{
  update_open, update_attempt, opens, put_back, mark_running, mark_succeeded, mark_failed,
  mark_retry_wait, cancel, set_prompt_id, renew_lease, row_retry_wait, row_running, row_succeeded,
  row_failed, row_cancelled,
}
use imagin.Postgres.Claim.{
  enqueue, insert_row, clashes, workflow_of, among, row_dispatched, candidates, is_candidate,
  claim_rows, claim_batch, claim_singly, claim, claim_next, claim_next_with_lease,
}
use imagin.Postgres.Claim.Chosen.{Waits, among-Waits, candidates-Waits}
use imagin.Postgres.Claim.Finalized.{claim_rows-IsConsistent, finalize_all-jobs}
use imagin.Postgres.Claim.Prompts.{eligible, eligible-Waits}
use imagin.Postgres.Commits.History.{commit-IsConsistent, history-IsConsistent}
use imagin.Postgres.Commits.{
  Transaction, enqueues, claims, claims_with_lease, marks_running, marks_succeeded, marks_failed,
  marks_retry_wait, sets_prompt_id, renews_lease, cancels, commit, commit_all, or_rolled_back,
}

-- The row under the key is this one, and it is over.
abbrev pub Ended : ℕ → JobRow → Database → Type 0
Ended k r db = (row_of k db.jobs ≡ some r) × (is_over r ≡ true)

open-Ended :
    (k id : ℕ) (f : JobRow → JobRow) (r : JobRow) (db : Database)
    → KeepsKey f
    → Ended k r db
    → row_of k (update_open id f db).jobs ≡ some r
unfolding update_open
open-Ended k id f r db keeps (at, over) =
    row_of-update_where k (is_open id) f db.jobs keeps ∙ rw at (ground (arith, over))

rows-Ended :
    (now k : ℕ) (owner : String) (expires : ℕ) (chosen : List JobRow) (r : JobRow) (db : Database)
    → All (Waits db.jobs) chosen
    → Ended k r db
    → row_of k (claim_rows now owner expires chosen db).db.jobs ≡ some r
unfolding claim_rows
rows-Ended now k owner expires chosen r db w (at, over) =
    let jobs = update_where (among chosen) row_dispatched db.jobs in
    let own : Holds db.jobs r = ap (λ n. row_of n db.jobs) (row_of-id k db.jobs r at) ∙ at in
    ap (row_of k) (finalize_all-jobs now owner expires (filter (among chosen) jobs) _)
    ∙ row_of-update_where k (among chosen) row_dispatched db.jobs (λ x. refl)
    ∙ rw at (elim (Bool-cases (among chosen r)) [
      | inl e ↦ absurd (ground (arith, among-Waits db.jobs chosen r w own e))
      | inr e ↦ rw e refl
    ])

singly-Ended :
    (now k : ℕ) (locked : ℕ → Bool) (n : ℕ) (kinds : Option (List String)) (m : ℕ) (owner : String)
    (expires : ℕ) (r : JobRow) (db : Database)
    → IsConsistent db
    → Ended k r db
    → row_of k (claim_singly now locked n kinds m owner expires db).db.jobs ≡ some r
unfolding claim_singly
singly-Ended now k locked zero kinds m owner expires r db c h = h.0
singly-Ended now k locked (suc n) kinds m owner expires r db c h =
    elim (List-cases (candidates now (eligible now locked kinds m db.jobs) db.jobs)) [
      | inl e ↦ rw (e, claim_singly) h.0
      | inr (best, rest, e) ↦
          let w : All (Waits db.jobs) (best ∷ rest) =
            rw e at (eligible-Waits now locked kinds m db c) in
          rw (e, claim_singly)
            (singly-Ended now k locked n kinds m owner expires r
              (claim_rows now owner expires (best ∷ []) db).db
              (claim_rows-IsConsistent now owner expires (best ∷ []) db (w.0, tt) c)
              (rows-Ended now k owner expires (best ∷ []) r db (w.0, tt) h, h.1))
    ]

claim-Ended :
    (now clock k : ℕ) (locked : ℕ → Bool) (n : ℕ) (kinds : Option (List String)) (owner : String)
    (lease m : ℕ) (r : JobRow) (db : Database)
    → IsConsistent db
    → Ended k r db
    → row_of k (claim now clock locked n kinds owner lease m db).db.jobs ≡ some r
unfolding claim claim_batch
claim-Ended now clock k locked n kinds owner lease m r db c h = elim (Bool-cases (leb n 0)) [
  | inl e ↦ rw e h.0
  | inr e ↦ rw e (elim (Bool-cases (leb m 0)) [
    | inl f ↦ rw f (
        rows-Ended now k owner (clock + lease) _ r db
          (All-take (Waits db.jobs) n _ (
            candidates-Waits now (is_candidate now locked kinds) db.jobs (λ x g. ground arith)
              c.keys))
          h)
    | inr f ↦ rw f (singly-Ended now k locked n kinds m owner (clock + lease) r db c h)
  ])
]

refuses_known :
    (job : QueuedJob) (k : ℕ) (r : JobRow) (rows : List JobRow)
    → row_of k rows ≡ some r
    → any (clashes job) rows ≡ false
    → (job.id == k) ≡ false
unfolding row_of
refuses_known job k r [] h a = cc
refuses_known job k r (x ∷ xs) h a = ground (arith, refuses_known job k r xs)

insert-Ended :
    (k : ℕ) (job : QueuedJob) (o : Option WorkflowDefinition) (r : JobRow) (db : Database)
    → Ended k r db
    → row_of k (or_rolled_back db (insert_row job o db)).jobs ≡ some r
unfolding row_of append_event
insert-Ended k job none r db h = h.0
insert-Ended k job (some w) r db h = elim (Bool-cases (any (clashes job) db.jobs)) [
  | inl e ↦ rw e h.0
  | inr e ↦ rw (e, refuses_known job k r db.jobs h.0 e) h.0
]

back-Ended :
    (now clock k id : ℕ) (code : String) (detail : Option String) (delay : ℕ) (r : JobRow)
    (db : Database)
    → Ended k r db
    → row_of k (put_back now clock id code detail delay db).jobs ≡ some r
unfolding put_back append_event update_attempt
back-Ended now clock k id code detail delay r db h =
    let same = open-Ended k id (row_retry_wait (clock + delay) code detail) r db (λ x. refl) h in
    if_both (λ (d : Database). row_of k d.jobs ≡ some r) (opens (row_of id db.jobs)) _ _ same same

cancel-Ended :
    (now k id : ℕ) (r : JobRow) (db : Database)
    → Ended k r db
    → row_of k (cancel now id db).0.jobs ≡ some r
unfolding cancel append_event
cancel-Ended now k id r db h =
    let same = open-Ended k id (row_cancelled now) r db (λ x. refl) h in
    elim (Bool-cases (opens (row_of id db.jobs))) [ inl e ↦ rw e same | inr e ↦ rw e same ]

commit-Ended :
    (now clock k : ℕ) (t : Transaction) (r : JobRow) (db : Database)
    → IsConsistent db
    → Ended k r db
    → row_of k (commit now clock t db).jobs ≡ some r
unfolding commit enqueue claim_next claim_next_with_lease mark_running set_prompt_id renew_lease
    mark_succeeded mark_failed mark_retry_wait append_event update_attempt
commit-Ended now clock k (enqueues job) r db c h =
    insert-Ended k job (workflow_of job.kind registry) r db h
commit-Ended now clock k (claims locked n kinds m) r db c h =
    claim-Ended now clock k locked n kinds "unleased" 300000000 m r db c h
commit-Ended now clock k (claims_with_lease locked n owner lease kinds m) r db c h =
    claim-Ended now clock k locked n kinds owner lease m r db c h
commit-Ended now clock k (marks_running id) r db c h =
    open-Ended k id (row_running now) r db (λ x. refl) h
commit-Ended now clock k (marks_succeeded id result) r db c h =
    let same = open-Ended k id (row_succeeded now) r db (λ x. refl) h in
    if_both (λ (d : Database). row_of k d.jobs ≡ some r) (opens (row_of id db.jobs)) _ _ same same
commit-Ended now clock k (marks_failed id code detail) r db c h =
    let same = open-Ended k id (row_failed now code detail) r db (λ x. refl) h in
    if_both (λ (d : Database). row_of k d.jobs ≡ some r) (opens (row_of id db.jobs)) _ _ same same
commit-Ended now clock k (marks_retry_wait id code detail d draw) r db c h =
    elim (Option-cases (row_of id db.jobs)) [
      | inl e ↦ rw (e, mark_retry_wait) h.0
      | inr (x, e) ↦ rw (e, mark_retry_wait) (back-Ended now clock k id code detail _ r db h)
    ]
commit-Ended now clock k (sets_prompt_id id prompt_id) r db c h = h.0
commit-Ended now clock k (renews_lease id lease) r db c h = h.0
commit-Ended now clock k (cancels id) r db c h = cancel-Ended now k id r db h

pub commit_all-Ended :
    (k : ℕ) (later : List (ℕ × ℕ × Transaction)) (r : JobRow) (db : Database)
    → IsConsistent db
    → Ended k r db
    → row_of k (commit_all later db).jobs ≡ some r
unfolding commit_all
commit_all-Ended k [] r db c h = h.0
commit_all-Ended k ((now, clock, t) ∷ rest) r db c h =
    commit_all-Ended k rest r (commit now clock t db) (commit-IsConsistent now clock t db c)
      (commit-Ended now clock k t r db c h, h.1)

-- Once a job of the database is cancelled, succeeded or failed, no later transactions change its row
-- at all, `mark_running` and a second `enqueue` under its identifier among them, whatever transactions
-- came before on empty tables.
pub history-over :
    (history later : List (ℕ × ℕ × Transaction)) (id : ℕ) (r : JobRow)
    → row_of id (commit_all history no_rows).jobs ≡ some r
    → is_over r ≡ true
    → row_of id (commit_all later (commit_all history no_rows)).jobs ≡ some r
history-over history later id r at over =
    commit_all-Ended id later r (commit_all history no_rows) (history-IsConsistent history)
      (at, over)
