-- ===== src/Postgres/Claim/Cap.antt =====
-- The cap on the active jobs of one user, in the claims of one row at a time.
use mathlib.Core.Path.{subst}
use imagin.Postgres.Claim.Prompts.{eligible, eligible-Waits}
use imagin.Prelude.{
  ℕ, ◌+◌, ◌≤◌, ◌≡◌, refl, inl, inr, ◌&&◌, none, some, List, [], ◌∷◌, arith, ◌==◌, if◌then◌else◌,
  Bool-cases, count, zero, suc, ◌<◌, max, String, Bool, true, false, Option, leb, ltb→lt, ==_iff,
  filter, All,
}
use imagin.Prelude.Table.{update_where, List-cases}
use imagin.Postgres.Tables.{JobRow, Database, row_of, in_flight}
use imagin.Postgres.Rows.{IsKeyed, Holds}
use imagin.Postgres.Attempts.{IsConsistent}
use imagin.Postgres.Claim.{
  among, row_dispatched, below_cap, candidates, claim_rows, claim_singly, claim,
}
use imagin.Postgres.Claim.Chosen.{Waits, candidates-All}
use imagin.Postgres.Claim.Finalized.{claim_rows-IsConsistent, finalize_all-jobs}

-- The user's dispatched and running jobs.
abbrev pub active_rows : ℕ → List JobRow → ℕ
active_rows u rows = count (λ (r : JobRow). r.user_id == u && in_flight r) rows

update_none :
    (best : JobRow) (rows : List JobRow)
    → row_of best.id rows ≡ none
    → update_where (among (best ∷ [])) row_dispatched rows ≡ rows
unfolding update_where row_of
update_none best [] h = refl
update_none best (r ∷ rs) h = ground (arith, update_none best rs)

-- One more, if it is the user's job that is dispatched.
active_rows-dispatch :
    (u : ℕ) (best : JobRow) (rows : List JobRow)
    → IsKeyed rows
    → row_of best.id rows ≡ some best
    → active_rows u (update_where (among (best ∷ [])) row_dispatched rows)
      ≤ active_rows u rows + (if best.user_id == u then 1 else 0)
unfolding update_where row_of
active_rows-dispatch u best [] k h = cc
active_rows-dispatch u best (r ∷ rs) k h = elim (Bool-cases (r.id == best.id)) [
  | inl e ↦
      let same : r ≡ best = ground arith in
      let gone : row_of best.id rs ≡ none = rw same at k.0 in
      rw same (ground (arith, update_none best rs gone))
  | inr e ↦ ground (arith, active_rows-dispatch u best rs k.1)
]

round-cap :
    (now u b m : ℕ) (owner : String) (expires : ℕ) (best : JobRow) (db : Database)
    → Holds db.jobs best
    → below_cap m db.jobs best ≡ true
    → IsKeyed db.jobs
    → m ≤ b
    → active_rows u db.jobs ≤ b
    → active_rows u (claim_rows now owner expires (best ∷ []) db).db.jobs ≤ b
unfolding claim_rows
round-cap now u b m owner expires best db at cap k mb h =
    let jobs = update_where (among (best ∷ [])) row_dispatched db.jobs in
    let rows =
      finalize_all-jobs now owner expires (filter (among (best ∷ [])) jobs)
        (record db { jobs = jobs }) in
    rw rows (elim (Bool-cases (best.user_id == u)) [
      | inl e ↦
          let same : best.user_id ≡ u = (==_iff best.user_id u).0 e in
          let below : active_rows u db.jobs < m =
            subst (λ v. active_rows v db.jobs < m) same (ltb→lt _ m cap) in
          ground (arith, active_rows-dispatch u best db.jobs k at)
      | inr e ↦ ground (arith, active_rows-dispatch u best db.jobs k at)
    ])

singly-cap :
    (now u b : ℕ) (locked : ℕ → Bool) (n : ℕ) (kinds : Option (List String)) (m : ℕ)
    (owner : String) (expires : ℕ) (db : Database)
    → IsConsistent db
    → m ≤ b
    → active_rows u db.jobs ≤ b
    → active_rows u (claim_singly now locked n kinds m owner expires db).db.jobs ≤ b
unfolding claim_singly
singly-cap now u b locked zero kinds m owner expires db c mb h = h
singly-cap now u b locked (suc n) kinds m owner expires db c mb h =
    let test = eligible now locked kinds m db.jobs in
    elim (List-cases (candidates now test db.jobs)) [
      | inl e ↦ rw (e, claim_singly) h
      | inr (best, rest, e) ↦
          let w : All (Waits db.jobs) (best ∷ rest) =
            rw e at (eligible-Waits now locked kinds m db c) in
          let p : All (λ r. test r ≡ true) (best ∷ rest) =
            rw e at (candidates-All now test db.jobs) in
          let cap : below_cap m db.jobs best ≡ true = ground (arith, p.0) in
          rw (e, claim_singly)
            (singly-cap now u b locked n kinds m owner expires
              (claim_rows now owner expires (best ∷ []) db).db
              (claim_rows-IsConsistent now owner expires (best ∷ []) db (w.0, tt) c) mb
              (round-cap now u b m owner expires best db w.0.0 cap c.keys mb h))
    ]

-- Where the tables are consistent and the cap is positive: a claim leaves no user more jobs in flight
-- than the larger of the cap and what the user had.
pub claim-cap :
    (now clock : ℕ) (locked : ℕ → Bool) (n : ℕ) (kinds : Option (List String)) (owner : String)
    (lease m u : ℕ) (db : Database)
    → IsConsistent db
    → 0 < m
    → active_rows u (claim now clock locked n kinds owner lease m db).db.jobs
      ≤ max m (active_rows u db.jobs)
unfolding claim
claim-cap now clock locked n kinds owner lease m u db c pos = elim (Bool-cases (leb n 0)) [
  | inl e ↦ rw e (omega arith)
  | inr e ↦
      let positive : leb m 0 ≡ false = ground arith in
      rw (e, positive)
        (singly-cap now u (max m (active_rows u db.jobs)) locked n kinds m owner (clock + lease) db
          c (omega arith) (omega arith))
]
