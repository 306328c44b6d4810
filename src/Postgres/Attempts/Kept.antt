-- ===== src/Postgres/Attempts/Kept.antt =====
-- The transactions, and the attempts of the jobs.
use imagin.Prelude.Json.{Json, Fields, end}
use imagin.Postgres.Marks.{
  put_back, update_attempt, update_open, mark_failed, row_retry_wait, cancel, mark_succeeded,
  mark_retry_wait, row_failed, row_cancelled, opens, row_succeeded,
}
use imagin.Prelude.{
  ℕ, ◌+◌, ◌≡◌, refl, Bool, true, false, Option, none, some, List, [], ◌∷◌, if◌then◌else◌, All,
  arith, any, Bool-cases, inl, inr, Option-cases, String,
}
use imagin.Jobs.Registry.{WorkflowDefinition}
use imagin.Queue.Job.{QueuedJob}
use imagin.Postgres.Tables.{JobRow, AttemptRow, Database, row_of, update_last}
use imagin.Postgres.Rows.{KeepsKey}
use imagin.Postgres.Attempts.{
  Within, IsConsistent, KeepsBound, KeepsNumber, update_jobs-IsConsistent, update_where-Within,
}
use imagin.Postgres.Events.{append_event}
use imagin.Postgres.Claim.{clashes, new_row, insert_row}
use imagin.Postgres.Commits.{or_rolled_back}

event-IsConsistent :
    (id : ℕ) (event_type : String) (payload : Fields) (db : Database)
    → IsConsistent db
    → IsConsistent (append_event id event_type payload db)
unfolding append_event
event-IsConsistent id event_type payload db c = record { keys = c.keys; attempts = c.attempts }

pub attempt-IsConsistent :
    (id : ℕ) (f : AttemptRow → AttemptRow) (db : Database)
    → KeepsNumber f
    → IsConsistent db
    → IsConsistent (update_attempt id f db)
unfolding update_attempt update_last
attempt-IsConsistent id f db keeps c = record {
  keys = c.keys;
  attempts = update_where-Within _ f db.jobs db.attempts keeps c.attempts;
}

pub open-IsConsistent :
    (id : ℕ) (f : JobRow → JobRow) (db : Database)
    → KeepsKey f
    → KeepsBound f
    → IsConsistent db
    → IsConsistent (update_open id f db)
unfolding update_open
open-IsConsistent id f db keeps grows c = update_jobs-IsConsistent _ f db keeps grows c

-- The insertion of a new row.
not_there :
    (job : QueuedJob) (rows : List JobRow)
    → any (clashes job) rows ≡ false
    → row_of job.id rows ≡ none
unfolding row_of
not_there job [] h = refl
not_there job (r ∷ rs) h = ground (arith, not_there job rs)

Within-cons :
    (x : JobRow) (jobs : List JobRow) (l : List AttemptRow)
    → row_of x.id jobs ≡ none
    → All (Within jobs) l
    → All (Within (x ∷ jobs)) l
unfolding row_of
Within-cons x jobs [] f h = tt
Within-cons x jobs (a ∷ table) f ((r, at, le), h) =
    ((r, ground arith, le), Within-cons x jobs table f h)

insert-IsConsistent :
    (job : QueuedJob) (w : WorkflowDefinition) (db : Database)
    → any (clashes job) db.jobs ≡ false
    → IsConsistent db
    → IsConsistent (record db { jobs = new_row job w ∷ db.jobs })
insert-IsConsistent job w db h c =
    let fresh = not_there job db.jobs h in
    record {
      keys = (fresh, c.keys);
      attempts = Within-cons (new_row job w) db.jobs db.attempts fresh c.attempts;
    }

pub inserted-IsConsistent :
    (job : QueuedJob) (o : Option WorkflowDefinition) (db : Database)
    → IsConsistent db
    → IsConsistent (or_rolled_back db (insert_row job o db))
inserted-IsConsistent job none db c = c
inserted-IsConsistent job (some w) db c = elim (Bool-cases (any (clashes job) db.jobs)) [
  | inl e ↦ rw e c
  | inr e ↦ rw e (event-IsConsistent job.id "created" end _ (insert-IsConsistent job w db e c))
]

-- The marks.
marked-IsConsistent :
    (test : Bool) (db updated logged : Database)
    → IsConsistent updated
    → IsConsistent logged
    → IsConsistent (if test then logged else updated)
marked-IsConsistent true db updated logged c d = d
marked-IsConsistent false db updated logged c d = c

pub succeeded-IsConsistent :
    (now id : ℕ) (result : Json) (db : Database)
    → IsConsistent db
    → IsConsistent (mark_succeeded now id result db)
unfolding mark_succeeded
succeeded-IsConsistent now id result db c =
    let u = open-IsConsistent id (row_succeeded now) db (λ r. refl) (λ r. ground arith) c in
    marked-IsConsistent (opens (row_of id db.jobs)) db _ _ u (
      event-IsConsistent id "job_succeeded" end _
        (attempt-IsConsistent id _ _ (λ a. (refl, refl)) u))

pub failed-IsConsistent :
    (now id : ℕ) (code : String) (detail : Option String) (db : Database)
    → IsConsistent db
    → IsConsistent (mark_failed now id code detail db)
unfolding mark_failed
failed-IsConsistent now id code detail db c =
    let u =
      open-IsConsistent id (row_failed now code detail) db (λ r. refl) (λ r. ground arith) c in
    marked-IsConsistent (opens (row_of id db.jobs)) db _ _ u
      (event-IsConsistent id _ _ _ (attempt-IsConsistent id _ _ (λ a. (refl, refl)) u))

put_back-IsConsistent :
    (now clock id : ℕ) (code : String) (detail : Option String) (delay : ℕ) (db : Database)
    → IsConsistent db
    → IsConsistent (put_back now clock id code detail delay db)
unfolding put_back
put_back-IsConsistent now clock id code detail delay db c =
    let u =
      open-IsConsistent id (row_retry_wait (clock + delay) code detail) db (λ r. refl)
        (λ r. ground arith) c in
    marked-IsConsistent (opens (row_of id db.jobs)) db _ _ u
      (event-IsConsistent id _ _ _ (attempt-IsConsistent id _ _ (λ a. (refl, refl)) u))

pub retry-IsConsistent :
    (now clock id : ℕ) (code : String) (detail : Option String) (delay : Option ℕ) (draw : ℕ)
    (db : Database)
    → IsConsistent db
    → IsConsistent (mark_retry_wait now clock id code detail delay draw db)
unfolding mark_retry_wait
retry-IsConsistent now clock id code detail delay draw db c =
    elim (Option-cases (row_of id db.jobs)) [
      | inl e ↦ rw (e, mark_retry_wait) c
      | inr (r, e) ↦ rw (e, mark_retry_wait) (put_back-IsConsistent now clock id code detail _ db c)
    ]

pub cancelled-IsConsistent :
    (now id : ℕ) (db : Database) → IsConsistent db → IsConsistent (cancel now id db).0
unfolding cancel
cancelled-IsConsistent now id db c =
    let u = open-IsConsistent id (row_cancelled now) db (λ r. refl) (λ r. ground arith) c in
    elim (Bool-cases (opens (row_of id db.jobs))) [
      | inl e ↦ rw e (event-IsConsistent id "job_cancelled" end _ u)
      | inr e ↦ rw e u
    ]
