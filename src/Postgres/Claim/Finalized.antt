-- ===== src/Postgres/Claim/Finalized.antt =====
-- The attempts of the rows that a claim takes.
use imagin.Prelude.{
  ℕ, ◌+◌, ◌≤◌, ◌≡◌, refl, true, false, ◌∙◌, sym, ap, Option, none, some, List, [], ◌∷◌, ◌==◌, All,
  arith, any, Bool-cases, inl, inr, String, leb, ==_refl,
}
use imagin.Prelude.Table.{update_where}
use imagin.Postgres.Tables.{JobRow, AttemptRow, Database}
use imagin.Postgres.Rows.{row_of-update_where, Holds, IsKeyed-Holds}
use imagin.Postgres.Attempts.{
  bound, Within, IsConsistent, update_jobs-IsConsistent, update_where-Within,
}
use imagin.Postgres.Events.{append_event}
use imagin.Postgres.Reads.{latest, newer}
use imagin.Postgres.Claim.{
  among, row_dispatched, same_attempt, new_attempt, with_lease, upsert_attempt,
  finalize_claimed_row, finalize_all, claim_rows,
}
use imagin.Postgres.Claim.Chosen.{Waits, Taken, returned-Taken}

-- The row is in the table, and may have one attempt more than it has used.
abbrev pub IsTaken : List JobRow → JobRow → Type 0
IsTaken jobs r = Holds jobs r × (bound r ≡ r.current_attempt + 1)

upsert-Within :
    (now : ℕ) (owner : String) (expires id n : ℕ) (jobs : List JobRow) (table : List AttemptRow)
    → Within jobs (new_attempt now owner expires id n)
    → All (Within jobs) table
    → All (Within jobs) (upsert_attempt now owner expires id n table)
unfolding upsert_attempt
upsert-Within now owner expires id n jobs table w h =
    elim (Bool-cases (any (same_attempt id n) table)) [
      | inl e ↦ rw e (
          update_where-Within (same_attempt id n) (with_lease owner expires) jobs table
            (λ a. (refl, refl)) h)
      | inr e ↦ rw e (w, h)
    ]

finalize-IsConsistent :
    (now : ℕ) (owner : String) (expires : ℕ) (r : JobRow) (db : Database)
    → IsTaken db.jobs r
    → IsConsistent db
    → IsConsistent (finalize_claimed_row now owner expires r db)
unfolding finalize_claimed_row append_event
finalize-IsConsistent now owner expires r db (at, room) c = record {
  keys = c.keys;
  attempts =
      upsert-Within now owner expires r.id (r.current_attempt + 1) db.jobs db.attempts
        (r, at, omega (arith, room)) c.attempts;
}

pub finalize_all-jobs :
    (now : ℕ) (owner : String) (expires : ℕ) (rs : List JobRow) (db : Database)
    → (finalize_all now owner expires rs db).jobs ≡ db.jobs
unfolding finalize_all finalize_claimed_row append_event
finalize_all-jobs now owner expires [] db = refl
finalize_all-jobs now owner expires (r ∷ rs) db =
    finalize_all-jobs now owner expires rs (finalize_claimed_row now owner expires r db)

finalize_all-IsConsistent :
    (now : ℕ) (owner : String) (expires : ℕ) (rs : List JobRow) (db : Database)
    → All (IsTaken db.jobs) rs
    → IsConsistent db
    → IsConsistent (finalize_all now owner expires rs db)
unfolding finalize_all finalize_claimed_row append_event
finalize_all-IsConsistent now owner expires [] db h c = c
finalize_all-IsConsistent now owner expires (r ∷ rs) db h c =
    finalize_all-IsConsistent now owner expires rs (finalize_claimed_row now owner expires r db) h.1
      (finalize-IsConsistent now owner expires r db h.0 c)

-- A row that a claim returns is the one in the table afterwards.
after_claim :
    (jobs chosen : List JobRow) (r : JobRow)
    → Taken jobs r
    → among chosen r ≡ true
    → IsTaken (update_where (among chosen) row_dispatched jobs) r
after_claim jobs chosen r (old, at, waits, same) a =
    let i : r.id ≡ old.id = ap (λ (x : JobRow). x.id) same in
    let b : among chosen old ≡ true =
      ap (λ (k : ℕ). any (λ (c : JobRow). c.id == k) chosen) (sym i) ∙ a in
    (
      row_of-update_where r.id (among chosen) row_dispatched jobs (λ x. refl)
          ∙ rw at (rw b (ap some (sym same))),
      rw same refl,
    )

pub All-after_claim :
    (jobs chosen rs : List JobRow)
    → All (λ r. Taken jobs r × (among chosen r ≡ true)) rs
    → All (IsTaken (update_where (among chosen) row_dispatched jobs)) rs
All-after_claim jobs chosen [] h = tt
All-after_claim jobs chosen (r ∷ rs) ((t, a), h) =
    (after_claim jobs chosen r t a, All-after_claim jobs chosen rs h)

-- A claim of rows that wait keeps the attempts within their bounds.
pub claim_rows-IsConsistent :
    (now : ℕ) (owner : String) (expires : ℕ) (chosen : List JobRow) (db : Database)
    → All (Waits db.jobs) chosen
    → IsConsistent db
    → IsConsistent (claim_rows now owner expires chosen db).db
unfolding claim_rows
claim_rows-IsConsistent now owner expires chosen db h c =
    finalize_all-IsConsistent now owner expires _ _
      (All-after_claim db.jobs chosen _
        (returned-Taken db.jobs chosen db.jobs h (IsKeyed-Holds db.jobs c.keys)))
      (update_jobs-IsConsistent (among chosen) row_dispatched db (λ r. refl) (λ r. ground arith) c)

-- The attempts of the row's job are those it has used.
abbrev pub Unused : List AttemptRow → JobRow → Type 0
Unused table r = All (λ a. (a.job_id == r.id) ≡ true → a.attempt_no ≤ r.current_attempt) table

-- The attempt that a claim opens: new, with no prompt, and with the lease of the claim.
abbrev pub IsFresh : String → ℕ → List AttemptRow → JobRow → Type 0
IsFresh owner expires table r =
    (a : AttemptRow) × (latest r.id table ≡ some a)
    × (a.attempt_no ≡ r.current_attempt + 1)
    × (a.comfy_prompt_id ≡ none)
    × (a.lease_owner ≡ owner)
    × (a.lease_expires_at ≡ expires)

no_conflict :
    (table : List AttemptRow) (r : JobRow)
    → Unused table r
    → any (same_attempt r.id (r.current_attempt + 1)) table ≡ false
no_conflict [] r h = refl
no_conflict (a ∷ table) r h = elim (Bool-cases (a.job_id == r.id)) [
  | inl e ↦ ground (arith, h.0 e, no_conflict table r h.1)
  | inr e ↦ ground (arith, no_conflict table r h.1)
]

-- The attempt number of an optional attempt is at most the number.
abbrev AtMost : ℕ → Option AttemptRow → Type 0
AtMost n none = Unit
AtMost n (some a) = a.attempt_no ≤ n

newer-AtMost :
    (n : ℕ) (a : AttemptRow) (o : Option AttemptRow)
    → a.attempt_no ≤ n
    → AtMost n o
    → AtMost n (newer a o)
newer-AtMost n a none h k = h
newer-AtMost n a (some b) h k = elim (Bool-cases (leb b.attempt_no a.attempt_no)) [
  | inl e ↦ rw e h
  | inr e ↦ rw e k
]

latest-AtMost :
    (table : List AttemptRow) (r : JobRow)
    → Unused table r
    → AtMost r.current_attempt (latest r.id table)
unfolding latest
latest-AtMost [] r h = tt
latest-AtMost (a ∷ table) r h = elim (Bool-cases (a.job_id == r.id)) [
  | inl e ↦ rw e (newer-AtMost r.current_attempt a _ (h.0 e) (latest-AtMost table r h.1))
  | inr e ↦ rw e (latest-AtMost table r h.1)
]

newer_wins :
    (n : ℕ) (a : AttemptRow) (o : Option AttemptRow)
    → n ≤ a.attempt_no
    → AtMost n o
    → newer a o ≡ some a
newer_wins n a none h k = refl
newer_wins n a (some b) h k = ground arith

pub upsert-latest :
    (now : ℕ) (owner : String) (expires : ℕ) (r : JobRow) (table : List AttemptRow)
    → Unused table r
    → latest r.id (upsert_attempt now owner expires r.id (r.current_attempt + 1) table)
      ≡ some (new_attempt now owner expires r.id (r.current_attempt + 1))
unfolding upsert_attempt latest
upsert-latest now owner expires r table h = rw (no_conflict table r h) (
    rw (==_refl r.id)
      (newer_wins r.current_attempt _ (latest r.id table) (omega arith) (latest-AtMost table r h)))
