-- ===== src/Postgres/Attempts.antt =====
-- The attempts of a job, against its count of attempts.
pub mod Kept
use imagin.Prelude.{
  ℕ, ◌+◌, ◌≤◌, ◌≡◌, refl, Bool, ◌∙◌, ap, some, List, [], ◌∷◌, if◌then◌else◌, All, arith, Bool-cases,
  inl, inr,
}
use imagin.Prelude.Table.{update_where}
use imagin.Postgres.Tables.{JobRow, AttemptRow, Database, row_of, in_backlog}
use imagin.Postgres.Rows.{KeepsKey, row_of-update_where, IsKeyed, update_where-IsKeyed}

-- The number of the last attempt that a job may have: a job that waits has used `current_attempt`.
abbrev pub bound : JobRow → ℕ
bound r = if in_backlog r then r.current_attempt else r.current_attempt + 1

-- The attempt belongs to a job, and its number is within the job's bound.
abbrev pub Within : List JobRow → AttemptRow → Type 0
Within jobs a = (r : JobRow) × (row_of a.job_id jobs ≡ some r) × (a.attempt_no ≤ bound r)

pub record IsConsistent (db : Database) : Type 0 where
  pub keys : IsKeyed db.jobs
  pub attempts : All (Within db.jobs) db.attempts

-- The change keeps the key, and the bound does not fall.
abbrev pub KeepsBound : (JobRow → JobRow) → Type 0
KeepsBound f = (r : JobRow) → bound r ≤ bound (f r)

update-Within :
    (p : JobRow → Bool) (f : JobRow → JobRow) (jobs : List JobRow) (a : AttemptRow)
    → KeepsKey f
    → KeepsBound f
    → Within jobs a
    → Within (update_where p f jobs) a
update-Within p f jobs a keeps grows (r, at, le) = (
  if p r then f r else r,
  row_of-update_where a.job_id p f jobs keeps ∙ rw at refl,
  ground (arith, grows r),
)

pub update-attempts :
    (p : JobRow → Bool) (f : JobRow → JobRow) (jobs : List JobRow) (l : List AttemptRow)
    → KeepsKey f
    → KeepsBound f
    → All (Within jobs) l
    → All (Within (update_where p f jobs)) l
update-attempts p f jobs [] keeps grows h = tt
update-attempts p f jobs (a ∷ table) keeps grows h =
    (update-Within p f jobs a keeps grows h.0, update-attempts p f jobs table keeps grows h.1)

pub update_jobs-IsConsistent :
    (p : JobRow → Bool) (f : JobRow → JobRow) (db : Database)
    → KeepsKey f
    → KeepsBound f
    → IsConsistent db
    → IsConsistent (record db { jobs = update_where p f db.jobs })
update_jobs-IsConsistent p f db keeps grows c = record {
  keys = update_where-IsKeyed p f db.jobs keeps c.keys;
  attempts = update-attempts p f db.jobs db.attempts keeps grows c.attempts;
}

-- The change keeps the job and the number of the attempt.
abbrev pub KeepsNumber : (AttemptRow → AttemptRow) → Type 0
KeepsNumber f = (a : AttemptRow) → ((f a).job_id ≡ a.job_id) × ((f a).attempt_no ≡ a.attempt_no)

pub update_where-Within :
    (p : AttemptRow → Bool) (f : AttemptRow → AttemptRow) (jobs : List JobRow) (l : List AttemptRow)
    → KeepsNumber f
    → All (Within jobs) l
    → All (Within jobs) (update_where p f l)
unfolding update_where
update_where-Within p f jobs [] keeps h = tt
update_where-Within p f jobs (a ∷ table) keeps h = elim (Bool-cases (p a)) [
  | inl e ↦
      let (r, at, le) = h.0 in
      rw e (
        (r, ap (λ k. row_of k jobs) (keeps a).0 ∙ at, ground (arith, (keeps a).1)),
        update_where-Within p f jobs table keeps h.1,
      )
  | inr e ↦ rw e (h.0, update_where-Within p f jobs table keeps h.1)
]
