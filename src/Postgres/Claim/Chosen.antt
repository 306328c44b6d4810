-- ===== src/Postgres/Claim/Chosen.antt =====
-- The rows that a claim takes.
use imagin.Prelude.{
  ℕ, ◌≡◌, refl, Bool, true, ◌∙◌, sym, ap, ==_iff, some, List, [], ◌∷◌, ◌==◌, All, arith, filter,
  Bool-cases, inl, inr,
}
use imagin.Prelude.Table.{update_where, All-filter, order_by-All}
use imagin.Postgres.Tables.{JobRow, row_of, in_backlog}
use imagin.Postgres.Rows.{IsKeyed, Holds, IsKeyed-Holds}
use imagin.Postgres.Claim.{among, row_dispatched, candidates}

-- A row of the table that waits.
abbrev pub Waits : List JobRow → JobRow → Type 0
Waits jobs r = Holds jobs r × (in_backlog r ≡ true)

filter-both :
    (p : JobRow → Bool) (jobs l : List JobRow)
    → ((r : JobRow) → p r ≡ true → in_backlog r ≡ true)
    → All (Holds jobs) l
    → All (Waits jobs) (filter p l)
filter-both p jobs [] h k = tt
filter-both p jobs (r ∷ rs) h k = elim (Bool-cases (p r)) [
  | inl e ↦ rw e ((k.0, h r e), filter-both p jobs rs h k.1)
  | inr e ↦ rw e (filter-both p jobs rs h k.1)
]

-- The candidates are rows of the table that wait.
pub candidates-Waits :
    (now : ℕ) (p : JobRow → Bool) (jobs : List JobRow)
    → ((r : JobRow) → p r ≡ true → in_backlog r ≡ true)
    → IsKeyed jobs
    → All (Waits jobs) (candidates now p jobs)
unfolding candidates
candidates-Waits now p jobs h u =
    order_by-All (Waits jobs) _ _ (filter-both p jobs jobs h (IsKeyed-Holds jobs u))

same_row :
    (jobs : List JobRow) (c r : JobRow)
    → Waits jobs c
    → Holds jobs r
    → (c.id == r.id) ≡ true
    → in_backlog r ≡ true
same_row jobs c r w k e =
    let i : c.id ≡ r.id = (==_iff c.id r.id).0 e in
    let s : some c ≡ some r = sym w.0 ∙ ap (λ k. row_of k jobs) i ∙ k in
    let t : c ≡ r = cc in rw (← t) w.1

-- A row of the table with the key of a chosen one is that one.
pub among-Waits :
    (jobs chosen : List JobRow) (r : JobRow)
    → All (Waits jobs) chosen
    → Holds jobs r
    → among chosen r ≡ true
    → in_backlog r ≡ true
among-Waits jobs [] r h k a = absurd (ground arith)
among-Waits jobs (c ∷ cs) r h k a = elim (Bool-cases (c.id == r.id)) [
  | inl e ↦ same_row jobs c r h.0 k e
  | inr e ↦ among-Waits jobs cs r h.1 k (rw e at a)
]

-- What a claim returns: a row of the table, dispatched, that waited before with the same number.
abbrev pub Taken : List JobRow → JobRow → Type 0
Taken jobs r =
    (old : JobRow) × (row_of r.id jobs ≡ some old)
    × (in_backlog old ≡ true)
    × (r ≡ row_dispatched old)

pub returned-Taken :
    (jobs chosen l : List JobRow)
    → All (Waits jobs) chosen
    → All (Holds jobs) l
    → All
        (λ r. Taken jobs r × (among chosen r ≡ true))
        (filter (among chosen) (update_where (among chosen) row_dispatched l))
unfolding update_where
returned-Taken jobs chosen [] h k = tt
returned-Taken jobs chosen (r ∷ rs) h k = elim (Bool-cases (among chosen r)) [
  | inl e ↦
      rw (e, e)
        (
          ((r, k.0, among-Waits jobs chosen r h k.0 e, refl), e),
          returned-Taken jobs chosen rs h k.1,
        )
  | inr e ↦ rw (e, e) (returned-Taken jobs chosen rs h k.1)
]

-- The candidates pass the test.
pub candidates-All :
    (now : ℕ) (p : JobRow → Bool) (jobs : List JobRow)
    → All (λ r. p r ≡ true) (candidates now p jobs)
unfolding candidates
candidates-All now p jobs =
    order_by-All (λ (r : JobRow). p r ≡ true) _ (filter p jobs) (All-filter p jobs)
