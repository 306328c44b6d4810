-- ===== src/Queue/Claim/Loop.antt =====
-- How many jobs the loop claims, and how the claim moves the counts of jobs.
use imagin.Prelude.{
  ℕ, ◌+◌, ◌≤◌, String, ◌≡◌, refl, inl, inr, Bool, true, false, ◌&&◌, Option, none, some, List, [],
  ◌∷◌, arith, leb, Bool-cases, length, count, All, length-append,
}
use imagin.Queue.Job.{QueuedJob, is_active, is_claimable, of_kinds}
use imagin.Queue.Store.{find}
use imagin.Queue.Store.Laws.{count-update}
use imagin.Queue.Store.Unique.{IsUnique, update-IsUnique}
use imagin.Queue.Claim.{Claiming, to_dispatched, claim_one, claim_loop, candidates, claim_next}
use imagin.Queue.Claim.Ready.{IsReady, claim_one-IsReady, candidates-IsReady, candidates_claimable}

one-claimed-le :
    (m : ℕ) (j : QueuedJob) (s : Claiming) → length (claim_one m j s).claimed ≤ length s.claimed + 1
unfolding claim_one
one-claimed-le m j s = ground (arith, length-append s.claimed (to_dispatched j ∷ []))

loop-claimed-le :
    (room m : ℕ) (todo : List QueuedJob) (s : Claiming)
    → length s.claimed ≤ room
    → length (claim_loop room m todo s).claimed ≤ room
unfolding claim_loop
loop-claimed-le room m [] s h = h
loop-claimed-le room m (j ∷ js) s h =
    ground (arith, one-claimed-le m j s, loop-claimed-le room m js (claim_one m j s))

-- A claim takes at most as many jobs as the capacity.
pub claimed-le_capacity :
    (now room : ℕ) (kinds : Option (List String)) (m : ℕ) (jobs : List QueuedJob)
    → length (claim_next now room kinds m jobs).claimed ≤ room
unfolding claim_next
claimed-le_capacity now room kinds m jobs =
    loop-claimed-le room m (candidates now kinds jobs) _ (omega arith)

-- A test that a job of the list fails before it is dispatched and passes afterwards.
abbrev pub Gains : (QueuedJob → Bool) → QueuedJob → Type 0
Gains p j = (p j ≡ false) × (p (to_dispatched j) ≡ true)

one-count :
    (p : QueuedJob → Bool) (m : ℕ) (j : QueuedJob) (s : Claiming)
    → find j.id s.jobs ≡ some j
    → Gains p j
    → count p (claim_one m j s).jobs + length s.claimed
      ≡ count p s.jobs + length (claim_one m j s).claimed
unfolding claim_one
one-count p m j s h g = ground (
  arith,
  length-append s.claimed (to_dispatched j ∷ []),
  count-update p j.id to_dispatched s.jobs j h,
)

loop-count :
    (p : QueuedJob → Bool) (room m : ℕ) (todo : List QueuedJob) (s : Claiming)
    → IsReady s.jobs todo
    → All (Gains p) todo
    → count p (claim_loop room m todo s).jobs + length s.claimed
      ≡ count p s.jobs + length (claim_loop room m todo s).claimed
unfolding claim_loop
loop-count p room m [] s r g = refl
loop-count p room m (j ∷ js) s r g = elim (Bool-cases (leb room (length s.claimed))) [
  | inl e ↦ rw e
  | inr e ↦ rw e (
      omega (
        arith,
        one-count p m j s r.stored.0 g.0,
        loop-count p room m js (claim_one m j s) (claim_one-IsReady m j js s r) g.1,
      ))
]

-- An active job of one of the kinds.
abbrev pub active_in : Option (List String) → QueuedJob → Bool
active_in kinds j = is_active j && of_kinds kinds j

claimable-Gains :
    (now : ℕ) (kinds : Option (List String)) (j : QueuedJob)
    → is_claimable kinds now j ≡ true
    → Gains (active_in kinds) j
claimable-Gains now none j h = ground arith
claimable-Gains now (some ks) j h = ground arith

All-Gains :
    (now : ℕ) (kinds : Option (List String)) (l : List QueuedJob)
    → All (λ j. is_claimable kinds now j ≡ true) l
    → All (Gains (active_in kinds)) l
All-Gains now kinds [] h = tt
All-Gains now kinds (j ∷ js) h = (claimable-Gains now kinds j h.0, All-Gains now kinds js h.1)

-- Where no two jobs share an identifier, the number of active jobs of the claimed kinds grows by
-- exactly the number of claimed jobs.
pub claim_next-active :
    (now room : ℕ) (kinds : Option (List String)) (m : ℕ) (jobs : List QueuedJob)
    → IsUnique jobs
    → count (active_in kinds) (claim_next now room kinds m jobs).jobs
      ≡ count (active_in kinds) jobs + length (claim_next now room kinds m jobs).claimed
unfolding claim_next
claim_next-active now room kinds m jobs u = omega (
  arith,
  loop-count (active_in kinds) room m (candidates now kinds jobs) _
      (candidates-IsReady now kinds jobs u)
      (All-Gains now kinds _ (candidates_claimable now kinds jobs)),
)

loop-IsUnique :
    (room m : ℕ) (todo : List QueuedJob) (s : Claiming)
    → IsUnique s.jobs
    → IsUnique (claim_loop room m todo s).jobs
unfolding claim_loop claim_one
loop-IsUnique room m [] s u = u
loop-IsUnique room m (j ∷ js) s u = ground (
  arith,
  update-IsUnique j.id to_dispatched s.jobs (λ k. refl) u,
  loop-IsUnique room m js (claim_one m j s),
)

-- A claim keeps the identifiers distinct.
pub claim_next-IsUnique :
    (now room : ℕ) (kinds : Option (List String)) (m : ℕ) (jobs : List QueuedJob)
    → IsUnique jobs
    → IsUnique (claim_next now room kinds m jobs).jobs
unfolding claim_next
claim_next-IsUnique now room kinds m jobs u = loop-IsUnique room m _ _ u
