-- ===== src/Postgres/Claim/Fresh.antt =====
-- The attempts that a claim opens, each for its own job.
use imagin.Prelude.{
  ℕ, ◌+◌, String, ◌≡◌, refl, ap, ◌∙◌, inl, inr, false, none, some, List, [], ◌∷◌, arith, ◌==◌,
  Bool-cases, any, All,
}
use imagin.Prelude.Table.{update_where}
use imagin.Postgres.Tables.{JobRow, AttemptRow, Database, row_of}
use imagin.Postgres.Events.{append_event}
use imagin.Postgres.Reads.{latest, newer}
use imagin.Postgres.Rows.{IsKeyed}
use imagin.Postgres.Claim.{
  same_attempt, new_attempt, with_lease, upsert_attempt, finalize_claimed_row, finalize_all,
}
use imagin.Postgres.Claim.Finalized.{Unused, IsFresh, upsert-latest}

latest-leased :
    (k id n : ℕ) (owner : String) (expires : ℕ) (table : List AttemptRow)
    → (id == k) ≡ false
    → latest k (update_where (same_attempt id n) (with_lease owner expires) table) ≡ latest k table
unfolding latest update_where
latest-leased k id n owner expires [] h = refl
latest-leased k id n owner expires (a ∷ table) h = elim (Bool-cases (a.job_id == k)) [
  | inl e ↦
      let other : same_attempt id n a ≡ false = ground arith in
      rw (other, e) (ap (newer a) (latest-leased k id n owner expires table h))
  | inr e ↦ elim (Bool-cases (same_attempt id n a)) [
    | inl s ↦ rw (s, e) (latest-leased k id n owner expires table h)
    | inr s ↦ rw (s, e) (latest-leased k id n owner expires table h)
  ]
]

latest-upsert :
    (now k id n : ℕ) (owner : String) (expires : ℕ) (table : List AttemptRow)
    → (id == k) ≡ false
    → latest k (upsert_attempt now owner expires id n table) ≡ latest k table
unfolding upsert_attempt latest
latest-upsert now k id n owner expires table h = elim (Bool-cases (any (same_attempt id n) table)) [
  | inl e ↦ rw e (latest-leased k id n owner expires table h)
  | inr e ↦ rw (e, h) refl
]

-- None of the rows has the key.
abbrev pub Others : ℕ → List JobRow → Type 0
Others k rows = All (λ (r : JobRow). (r.id == k) ≡ false) rows

absent-Others : (k : ℕ) (rows : List JobRow) → row_of k rows ≡ none → Others k rows
unfolding row_of
absent-Others k [] h = tt
absent-Others k (r ∷ rs) h = (ground arith, absent-Others k rs (ground arith))

pub latest-finalize_all :
    (now k : ℕ) (owner : String) (expires : ℕ) (rs : List JobRow) (db : Database)
    → Others k rs
    → latest k (finalize_all now owner expires rs db).attempts ≡ latest k db.attempts
unfolding finalize_all finalize_claimed_row append_event
latest-finalize_all now k owner expires [] db h = refl
latest-finalize_all now k owner expires (r ∷ rs) db h =
    latest-finalize_all now k owner expires rs (finalize_claimed_row now owner expires r db) h.1
    ∙ latest-upsert now k r.id (r.current_attempt + 1) owner expires db.attempts h.0

Unused-leased :
    (id n : ℕ) (owner : String) (expires : ℕ) (table : List AttemptRow) (r : JobRow)
    → Unused table r
    → Unused (update_where (same_attempt id n) (with_lease owner expires) table) r
unfolding update_where
Unused-leased id n owner expires [] r h = tt
Unused-leased id n owner expires (a ∷ table) r h = elim (Bool-cases (same_attempt id n a)) [
  | inl s ↦ rw s (h.0, Unused-leased id n owner expires table r h.1)
  | inr s ↦ rw s (h.0, Unused-leased id n owner expires table r h.1)
]

Unused-upsert :
    (now id n : ℕ) (owner : String) (expires : ℕ) (table : List AttemptRow) (r : JobRow)
    → (r.id == id) ≡ false
    → Unused table r
    → Unused (upsert_attempt now owner expires id n table) r
unfolding upsert_attempt
Unused-upsert now id n owner expires table r d h =
    elim (Bool-cases (any (same_attempt id n) table)) [
      | inl e ↦ rw e (Unused-leased id n owner expires table r h)
      | inr e ↦ rw e ((λ s. ground arith), h)
    ]

All-Unused :
    (now : ℕ) (owner : String) (expires : ℕ) (r : JobRow) (rs : List JobRow) (db : Database)
    → Others r.id rs
    → All (Unused db.attempts) rs
    → All (Unused (finalize_claimed_row now owner expires r db).attempts) rs
unfolding finalize_claimed_row append_event
All-Unused now owner expires r [] db d h = tt
All-Unused now owner expires r (x ∷ xs) db d h = (
  Unused-upsert now r.id (r.current_attempt + 1) owner expires db.attempts x d.0 h.0,
  All-Unused now owner expires r xs db d.1 h.1,
)

latest-own :
    (now : ℕ) (owner : String) (expires : ℕ) (r : JobRow) (db : Database)
    → Unused db.attempts r
    → latest r.id (finalize_claimed_row now owner expires r db).attempts
      ≡ some (new_attempt now owner expires r.id (r.current_attempt + 1))
unfolding finalize_claimed_row append_event
latest-own now owner expires r db h = upsert-latest now owner expires r db.attempts h

pub finalize_all-IsFresh :
    (now : ℕ) (owner : String) (expires : ℕ) (rs : List JobRow) (db : Database)
    → IsKeyed rs
    → All (Unused db.attempts) rs
    → All (IsFresh owner expires (finalize_all now owner expires rs db).attempts) rs
unfolding finalize_all
finalize_all-IsFresh now owner expires [] db u h = tt
finalize_all-IsFresh now owner expires (r ∷ rs) db u h =
    let others = absent-Others r.id rs u.0 in
    let db1 = finalize_claimed_row now owner expires r db in
    (
      (
        new_attempt now owner expires r.id (r.current_attempt + 1),
        latest-finalize_all now r.id owner expires rs db1 others
            ∙ latest-own now owner expires r db h.0,
        refl,
        refl,
        refl,
        refl,
      ),
      finalize_all-IsFresh now owner expires rs db1 u.1
          (All-Unused now owner expires r rs db others h.1),
    )
