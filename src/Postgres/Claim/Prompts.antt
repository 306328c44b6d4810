-- ===== src/Postgres/Claim/Prompts.antt =====
-- A claim, from the reservation of its rows to the attempts that it opens.
use imagin.Prelude.{
  ℕ, zero, suc, String, ◌≡◌, refl, ◌∙◌, Bool, ◌&&◌, Option, List, [], ◌∷◌, arith, All, inl, inr,
  ◌+◌, leb, Bool-cases, All-append,
}
use imagin.Prelude.Table.{All-take, List-cases}
use imagin.Postgres.Tables.{JobRow, Database}
use imagin.Postgres.Reads.{latest}
use imagin.Postgres.Attempts.{IsConsistent}
use imagin.Postgres.Claim.{
  is_candidate, below_cap, candidates, claim_rows, claim_batch, claim_singly, claim, Claimed,
  then_rows,
}
use imagin.Postgres.Claim.Chosen.{Waits, candidates-Waits}
use imagin.Postgres.Claim.Finalized.{IsFresh, claim_rows-IsConsistent}
use imagin.Postgres.Claim.Rounds.{IsBusy, claim_rows-IsFresh, claim_rows-IsBusy', claim_rows-IsBusy}

-- What holds of a claim.
pub record IsSound (owner : String) (expires : ℕ) (c : Claimed) : Type 0 where
  pub consistent : IsConsistent c.db
  pub fresh : All (IsFresh owner expires c.db.attempts) c.rows

pub batch-IsSound :
    (now : ℕ) (locked : ℕ → Bool) (n : ℕ) (kinds : Option (List String)) (owner : String)
    (expires : ℕ) (db : Database)
    → IsConsistent db
    → IsSound owner expires (claim_batch now locked n kinds owner expires db)
unfolding claim_batch
batch-IsSound now locked n kinds owner expires db c =
    let w =
      All-take (Waits db.jobs) n _ (
        candidates-Waits now (is_candidate now locked kinds) db.jobs (λ r h. ground arith)
          c.keys) in
    record {
      consistent = claim_rows-IsConsistent now owner expires _ db w c;
      fresh = claim_rows-IsFresh now owner expires _ db w c;
    }

abbrev pub eligible : ℕ → (ℕ → Bool) → Option (List String) → ℕ → List JobRow → JobRow → Bool
eligible now locked kinds m jobs r = is_candidate now locked kinds r && below_cap m jobs r

pub eligible-Waits :
    (now : ℕ) (locked : ℕ → Bool) (kinds : Option (List String)) (m : ℕ) (db : Database)
    → IsConsistent db
    → All (Waits db.jobs) (candidates now (eligible now locked kinds m db.jobs) db.jobs)
eligible-Waits now locked kinds m db c =
    candidates-Waits now (eligible now locked kinds m db.jobs) db.jobs (λ r h. ground arith) c.keys

-- The attempts of a job that does not wait stay.
singly-busy :
    (now k : ℕ) (locked : ℕ → Bool) (n : ℕ) (kinds : Option (List String)) (m : ℕ) (owner : String)
    (expires : ℕ) (db : Database)
    → IsConsistent db
    → IsBusy k db.jobs
    → latest k (claim_singly now locked n kinds m owner expires db).db.attempts
      ≡ latest k db.attempts
unfolding claim_singly
singly-busy now k locked zero kinds m owner expires db c b = refl
singly-busy now k locked (suc n) kinds m owner expires db c b =
    elim (List-cases (candidates now (eligible now locked kinds m db.jobs) db.jobs)) [
      | inl e ↦ rw (e, claim_singly) refl
      | inr (best, rest, e) ↦
          let w : All (Waits db.jobs) (best ∷ rest) =
            rw e at (eligible-Waits now locked kinds m db c) in
          let (same, busy) = claim_rows-IsBusy' now k owner expires (best ∷ []) db (w.0, tt) c b in
          rw (e, claim_singly)
            (singly-busy now k locked n kinds m owner expires
                (claim_rows now owner expires (best ∷ []) db).db
                (claim_rows-IsConsistent now owner expires (best ∷ []) db (w.0, tt) c) busy
              ∙ same)
    ]

-- What is fresh after a round is fresh after the later ones.
still-IsFresh :
    (now : ℕ) (locked : ℕ → Bool) (n : ℕ) (kinds : Option (List String)) (m : ℕ) (owner : String)
    (expires : ℕ) (db : Database) (rs : List JobRow)
    → IsConsistent db
    → All (IsFresh owner expires db.attempts) rs
    → All (λ (r : JobRow). IsBusy r.id db.jobs) rs
    → All
        (IsFresh owner expires (claim_singly now locked n kinds m owner expires db).db.attempts)
        rs
still-IsFresh now locked n kinds m owner expires db [] c f b = tt
still-IsFresh now locked n kinds m owner expires db (r ∷ rs) c ((a, at, n1, n2, n3, n4), f)
      (b, bs) =
    (
      (a, singly-busy now r.id locked n kinds m owner expires db c b ∙ at, n1, n2, n3, n4),
      still-IsFresh now locked n kinds m owner expires db rs c f bs,
    )

round :
    (now : ℕ) (locked : ℕ → Bool) (n : ℕ) (kinds : Option (List String)) (m : ℕ) (owner : String)
    (expires : ℕ) (best : JobRow) (db : Database)
    → All (Waits db.jobs) (best ∷ [])
    → IsConsistent db
    → let c = claim_rows now owner expires (best ∷ []) db in
      IsSound owner expires (claim_singly now locked n kinds m owner expires c.db)
      → IsSound owner expires
          (then_rows c.rows (claim_singly now locked n kinds m owner expires c.db))
round now locked n kinds m owner expires best db w c sound =
    let first = claim_rows now owner expires (best ∷ []) db in
    record {
      consistent = sound.consistent;
      fresh =
          All-append (IsFresh owner expires _) first.rows _
            (still-IsFresh now locked n kinds m owner expires first.db first.rows
              (claim_rows-IsConsistent now owner expires (best ∷ []) db w c)
              (claim_rows-IsFresh now owner expires (best ∷ []) db w c)
              (claim_rows-IsBusy now owner expires (best ∷ []) db w c))
            sound.fresh;
    }

singly-IsSound :
    (now : ℕ) (locked : ℕ → Bool) (n : ℕ) (kinds : Option (List String)) (m : ℕ) (owner : String)
    (expires : ℕ) (db : Database)
    → IsConsistent db
    → IsSound owner expires (claim_singly now locked n kinds m owner expires db)
unfolding claim_singly
singly-IsSound now locked zero kinds m owner expires db c = record { consistent = c; fresh = tt }
singly-IsSound now locked (suc n) kinds m owner expires db c =
    elim (List-cases (candidates now (eligible now locked kinds m db.jobs) db.jobs)) [
      | inl e ↦ rw (e, claim_singly) (record { consistent = c; fresh = tt })
      | inr (best, rest, e) ↦
          let w : All (Waits db.jobs) (best ∷ rest) =
            rw e at (eligible-Waits now locked kinds m db c) in
          rw (e, claim_singly)
            (round now locked n kinds m owner expires best db (w.0, tt) c
              (singly-IsSound now locked n kinds m owner expires
                (claim_rows now owner expires (best ∷ []) db).db
                (claim_rows-IsConsistent now owner expires (best ∷ []) db (w.0, tt) c)))
    ]

-- A claim keeps the attempts within their bounds, and each row that it returns has a new attempt.
pub claim-IsSound :
    (now clock : ℕ) (locked : ℕ → Bool) (n : ℕ) (kinds : Option (List String)) (owner : String)
    (lease m : ℕ) (db : Database)
    → IsConsistent db
    → IsSound owner (clock + lease) (claim now clock locked n kinds owner lease m db)
unfolding claim
claim-IsSound now clock locked n kinds owner lease m db c = elim (Bool-cases (leb n 0)) [
  | inl e ↦ rw e (record { consistent = c; fresh = tt })
  | inr e ↦ rw e (elim (Bool-cases (leb m 0)) [
    | inl f ↦ rw f (batch-IsSound now locked n kinds owner (clock + lease) db c)
    | inr f ↦ rw f (singly-IsSound now locked n kinds m owner (clock + lease) db c)
  ])
]
