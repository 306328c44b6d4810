-- ===== src/Postgres/Claim/Rounds.antt =====
-- The claims, round by round: their rows, and the attempts of these.
use imagin.Prelude.{
  ℕ, ◌≤◌, String, ◌≡◌, refl, sym, ap, ◌∙◌, inl, inr, Bool, true, false, none, some, List, [], ◌∷◌,
  arith, ◌==◌, if◌then◌else◌, ==_iff, Bool-cases, filter, All,
}
use imagin.Prelude.Table.{update_where}
use imagin.Postgres.Tables.{JobRow, AttemptRow, Database, row_of, in_backlog}
use imagin.Postgres.Reads.{latest}
use imagin.Postgres.Rows.{IsKeyed, IsKeyed-Holds, row_of-update_where, update_where-IsKeyed}
use imagin.Postgres.Attempts.{bound, Within, IsConsistent}
use imagin.Postgres.Claim.{among, row_dispatched, claim_rows}
use imagin.Postgres.Claim.Chosen.{Waits, Taken, returned-Taken}
use imagin.Postgres.Claim.Finalized.{Unused, IsFresh, finalize_all-jobs, IsTaken, All-after_claim}
use imagin.Postgres.Claim.Fresh.{Others, latest-finalize_all, finalize_all-IsFresh}

Taken-Unused :
    (jobs : List JobRow) (table : List AttemptRow) (r : JobRow)
    → Taken jobs r
    → All (Within jobs) table
    → Unused table r
Taken-Unused jobs [] r t h = tt
Taken-Unused jobs (a ∷ table) r (old, at, waits, same) ((g, found, le), h) = (
  λ e.
      let i : a.job_id ≡ r.id = (==_iff a.job_id r.id).0 e in
      let s : some g ≡ some old = sym found ∙ ap (λ k. row_of k jobs) i ∙ at in
      let t : g ≡ old = cc in
      let within : a.attempt_no ≤ bound old = rw t at le in
      let b : a.attempt_no ≤ old.current_attempt = ground (arith, waits, within) in rw same b,
  Taken-Unused jobs table r (old, at, waits, same) h,
)

All-Unused :
    (jobs chosen : List JobRow) (table : List AttemptRow) (rs : List JobRow)
    → All (λ r. Taken jobs r × (among chosen r ≡ true)) rs
    → All (Within jobs) table
    → All (Unused table) rs
All-Unused jobs chosen table [] h w = tt
All-Unused jobs chosen table (r ∷ rs) h w =
    (Taken-Unused jobs table r h.0.0 w, All-Unused jobs chosen table rs h.1 w)

row_of-filter :
    (k : ℕ) (p : JobRow → Bool) (rows : List JobRow)
    → row_of k rows ≡ none
    → row_of k (filter p rows) ≡ none
unfolding row_of
row_of-filter k p [] h = refl
row_of-filter k p (r ∷ rs) h = ground (arith, row_of-filter k p rs)

filter-IsKeyed : (p : JobRow → Bool) (rows : List JobRow) → IsKeyed rows → IsKeyed (filter p rows)
filter-IsKeyed p [] u = tt
filter-IsKeyed p (r ∷ rs) u = elim (Bool-cases (p r)) [
  | inl e ↦ rw e (row_of-filter r.id p rs u.0, filter-IsKeyed p rs u.1)
  | inr e ↦ rw e (filter-IsKeyed p rs u.1)
]

pub claim_rows-IsFresh :
    (now : ℕ) (owner : String) (expires : ℕ) (chosen : List JobRow) (db : Database)
    → All (Waits db.jobs) chosen
    → IsConsistent db
    → let c = claim_rows now owner expires chosen db in
      All (IsFresh owner expires c.db.attempts) c.rows
unfolding claim_rows
claim_rows-IsFresh now owner expires chosen db h c =
    finalize_all-IsFresh now owner expires _ _
      (filter-IsKeyed (among chosen) _
        (update_where-IsKeyed (among chosen) row_dispatched db.jobs (λ r. refl) c.keys))
      (All-Unused db.jobs chosen db.attempts _
        (returned-Taken db.jobs chosen db.jobs h (IsKeyed-Holds db.jobs c.keys)) c.attempts)

-- The job does not wait.
abbrev pub IsBusy : ℕ → List JobRow → Type 0
IsBusy k jobs = (r : JobRow) × (row_of k jobs ≡ some r) × (in_backlog r ≡ false)

Taken-Others :
    (k : ℕ) (jobs chosen rs : List JobRow)
    → IsBusy k jobs
    → All (λ r. Taken jobs r × (among chosen r ≡ true)) rs
    → Others k rs
Taken-Others k jobs chosen [] b h = tt
Taken-Others k jobs chosen (r ∷ rs) b h =
    (other k jobs r b h.0.0, Taken-Others k jobs chosen rs b h.1)
  where
    other :
        (k : ℕ) (jobs : List JobRow) (r : JobRow)
        → IsBusy k jobs
        → Taken jobs r
        → (r.id == k) ≡ false
    other k jobs r (g, found, busy) (old, at, waits, same) = elim (Bool-cases (r.id == k)) [
      | inl e ↦
          let i : r.id ≡ k = (==_iff r.id k).0 e in
          let s : some g ≡ some old = sym found ∙ ap (λ k. row_of k jobs) (sym i) ∙ at in
          let t : g ≡ old = cc in absurd (ground (arith, rw t at busy))
      | inr e ↦ e
    ]

pub claim_rows-IsBusy' :
    (now k : ℕ) (owner : String) (expires : ℕ) (chosen : List JobRow) (db : Database)
    → All (Waits db.jobs) chosen
    → IsConsistent db
    → IsBusy k db.jobs
    → let c = claim_rows now owner expires chosen db in
      (latest k c.db.attempts ≡ latest k db.attempts) × IsBusy k c.db.jobs
unfolding claim_rows
claim_rows-IsBusy' now k owner expires chosen db h c b =
    let jobs = update_where (among chosen) row_dispatched db.jobs in
    let (g, found, busy) = b in
    (
      latest-finalize_all now k owner expires _ _ (
          Taken-Others k db.jobs chosen _ b
            (returned-Taken db.jobs chosen db.jobs h (IsKeyed-Holds db.jobs c.keys))),
      (
        if among chosen g then row_dispatched g else g,
        ap (row_of k) (finalize_all-jobs now owner expires (filter (among chosen) jobs) _)
            ∙ row_of-update_where k (among chosen) row_dispatched db.jobs (λ r. refl)
            ∙ rw found refl,
        ground arith,
      ),
    )

IsBusy-rows :
    (jobs jobs2 rs : List JobRow)
    → jobs2 ≡ jobs
    → All (IsTaken jobs) rs
    → All (λ (r : JobRow). IsBusy r.id jobs2) rs
IsBusy-rows jobs jobs2 [] e h = tt
IsBusy-rows jobs jobs2 (r ∷ rs) e ((at, room), h) =
    ((r, ap (row_of r.id) e ∙ at, ground (arith, room)), IsBusy-rows jobs jobs2 rs e h)

-- The rows that a claim returns wait no longer.
pub claim_rows-IsBusy :
    (now : ℕ) (owner : String) (expires : ℕ) (chosen : List JobRow) (db : Database)
    → All (Waits db.jobs) chosen
    → IsConsistent db
    → let c = claim_rows now owner expires chosen db in
      All (λ (r : JobRow). IsBusy r.id c.db.jobs) c.rows
unfolding claim_rows
claim_rows-IsBusy now owner expires chosen db h c =
    IsBusy-rows _ _ _ (finalize_all-jobs now owner expires _ _) (
      All-after_claim db.jobs chosen _
        (returned-Taken db.jobs chosen db.jobs h (IsKeyed-Holds db.jobs c.keys)))
