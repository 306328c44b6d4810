-- ===== src/Queue/Claim/Cap.antt =====
-- The cap on the active jobs of one user.
use imagin.Prelude.{
  ℕ, suc, ◌≤◌, ◌<◌, max, String, ◌≡◌, inl, inr, true, Option, some, List, [], ◌∷◌, arith, leb, ◌==◌,
  if◌then◌else◌, Bool-cases, length, count, All,
}
use imagin.Queue.Job.{QueuedJob, is_backlog, is_claimable}
use imagin.Queue.Store.{find, update}
use imagin.Queue.Store.Laws.{count-update}
use imagin.Queue.Store.Unique.{IsUnique}
use imagin.Queue.Claim.{
  Claiming, count_of, to_dispatched, claim_one, claim_loop, candidates, claim_next,
}
use imagin.Queue.Claim.Ready.{IsReady, claim_one-IsReady, candidates-IsReady, candidates_claimable}
use imagin.Queue.Claim.Tally.{active_of, count_of-bump, count_of-tally}

-- The dictionary holds each user's number of active jobs.
abbrev pub IsSynced : Claiming → Type 0
IsSynced s = (u : ℕ) → count (active_of u) s.jobs ≡ count_of u s.counts

active_gain :
    (u : ℕ) (j : QueuedJob) (s : Claiming)
    → find j.id s.jobs ≡ some j
    → is_backlog j ≡ true
    → count (active_of u) (update j.id to_dispatched s.jobs)
      ≡ (if j.user_id == u then suc (count (active_of u) s.jobs) else count (active_of u) s.jobs)
active_gain u j s h b = ground (arith, count-update (active_of u) j.id to_dispatched s.jobs j h)

one-IsSynced :
    (m : ℕ) (j : QueuedJob) (s : Claiming)
    → 0 < m
    → find j.id s.jobs ≡ some j
    → is_backlog j ≡ true
    → IsSynced s
    → IsSynced (claim_one m j s)
unfolding claim_one
one-IsSynced m j s pos h b sync u =
    ground (arith, active_gain u j s h b, sync u, count_of-bump u j.user_id s.counts)

one-cap :
    (m : ℕ) (j : QueuedJob) (s : Claiming) (u b : ℕ)
    → 0 < m
    → m ≤ b
    → find j.id s.jobs ≡ some j
    → is_backlog j ≡ true
    → IsSynced s
    → count (active_of u) s.jobs ≤ b
    → count (active_of u) (claim_one m j s).jobs ≤ b
unfolding claim_one
one-cap m j s u b pos mb h bl sync le =
    ground (arith, active_gain u j s h bl, sync u, sync j.user_id)

loop-cap :
    (room m : ℕ) (todo : List QueuedJob) (s : Claiming) (u b : ℕ)
    → 0 < m
    → m ≤ b
    → IsReady s.jobs todo
    → All (λ j. is_backlog j ≡ true) todo
    → IsSynced s
    → count (active_of u) s.jobs ≤ b
    → count (active_of u) (claim_loop room m todo s).jobs ≤ b
unfolding claim_loop
loop-cap room m [] s u b pos mb r bl sync le = le
loop-cap room m (j ∷ js) s u b pos mb r bl sync le =
    elim (Bool-cases (leb room (length s.claimed))) [
      | inl e ↦ rw e le
      | inr e ↦ rw e (
          loop-cap room m js (claim_one m j s) u b pos mb (claim_one-IsReady m j js s r) bl.1
            (one-IsSynced m j s pos r.stored.0 bl.0 sync)
            (one-cap m j s u b pos mb r.stored.0 bl.0 sync le))
    ]

pub loop-IsSynced :
    (room m : ℕ) (todo : List QueuedJob) (s : Claiming)
    → 0 < m
    → IsReady s.jobs todo
    → All (λ j. is_backlog j ≡ true) todo
    → IsSynced s
    → IsSynced (claim_loop room m todo s)
unfolding claim_loop
loop-IsSynced room m [] s pos r bl sync = sync
loop-IsSynced room m (j ∷ js) s pos r bl sync = elim (Bool-cases (leb room (length s.claimed))) [
  | inl e ↦ rw e sync
  | inr e ↦ rw e (
      loop-IsSynced room m js (claim_one m j s) pos (claim_one-IsReady m j js s r) bl.1
        (one-IsSynced m j s pos r.stored.0 bl.0 sync))
]

pub All-backlog :
    (now : ℕ) (kinds : Option (List String)) (l : List QueuedJob)
    → All (λ j. is_claimable kinds now j ≡ true) l
    → All (λ j. is_backlog j ≡ true) l
All-backlog now kinds [] h = tt
All-backlog now kinds (j ∷ js) h = (ground arith, All-backlog now kinds js h.1)

-- After a claim with a cap the dictionary holds each user's number of active jobs.
pub claim_next-IsSynced :
    (now room : ℕ) (kinds : Option (List String)) (m : ℕ) (jobs : List QueuedJob)
    → IsUnique jobs
    → 0 < m
    → IsSynced (claim_next now room kinds m jobs)
unfolding claim_next
claim_next-IsSynced now room kinds m jobs uniq pos =
    loop-IsSynced room m (candidates now kinds jobs) _ pos (candidates-IsReady now kinds jobs uniq)
      (All-backlog now kinds _ (candidates_claimable now kinds jobs))
      (λ v. ground (arith, count_of-tally v jobs))

-- Where no two jobs share an identifier, and with a positive cap on the active jobs of one user, a
-- claim gives no user more active jobs than the larger of the cap and what the user had before.
pub claim_next-cap :
    (now room : ℕ) (kinds : Option (List String)) (m : ℕ) (jobs : List QueuedJob) (user : ℕ)
    → IsUnique jobs
    → 0 < m
    → count (active_of user) (claim_next now room kinds m jobs).jobs
      ≤ max m (count (active_of user) jobs)
unfolding claim_next
claim_next-cap now room kinds m jobs u uniq pos =
    loop-cap room m (candidates now kinds jobs) _ u (max m (count (active_of u) jobs)) pos
      (omega arith) (candidates-IsReady now kinds jobs uniq)
      (All-backlog now kinds _ (candidates_claimable now kinds jobs))
      (λ v. ground (arith, count_of-tally v jobs)) (omega arith)
