-- ===== src/Queue/Claim/Lanes.antt =====
-- Claims of some kinds and the counts of the active jobs of those kinds and of others.
use imagin.Prelude.{
  ℕ, suc, ◌+◌, ◌≤◌, String, ◌≡◌, refl, ap, ◌∙◌, inl, inr, Bool, true, false, some, List, [], ◌∷◌,
  map, arith, leb, Bool-cases, length, count, All, contains,
}
use imagin.Queue.Job.{QueuedJob, is_claimable}
use imagin.Queue.Store.{update, find}
use imagin.Queue.Store.Laws.{count-update}
use imagin.Queue.Store.Unique.{IsUnique}
use imagin.Queue.Claim.{
  Claiming, to_dispatched, to_leased, claim_one, claim_loop, candidates, claim_next, stamp_leases,
  claim_next_with_lease,
}
use imagin.Queue.Claim.Ready.{IsReady, claim_one-IsReady, candidates-IsReady, candidates_claimable}
use imagin.Queue.Claim.Loop.{active_in, claim_next-active, claimed-le_capacity}

-- A test that does not see the dispatch of the job.
abbrev Blind : (QueuedJob → Bool) → QueuedJob → Type 0
Blind p j = p (to_dispatched j) ≡ p j

one-Blind :
    (p : QueuedJob → Bool) (m : ℕ) (j : QueuedJob) (s : Claiming)
    → find j.id s.jobs ≡ some j
    → Blind p j
    → count p (claim_one m j s).jobs ≡ count p s.jobs
unfolding claim_one
one-Blind p m j s h b = ground (arith, count-update p j.id to_dispatched s.jobs j h)

loop-Blind :
    (p : QueuedJob → Bool) (room m : ℕ) (todo : List QueuedJob) (s : Claiming)
    → IsReady s.jobs todo
    → All (Blind p) todo
    → count p (claim_loop room m todo s).jobs ≡ count p s.jobs
unfolding claim_loop
loop-Blind p room m [] s r b = refl
loop-Blind p room m (j ∷ js) s r b = elim (Bool-cases (leb room (length s.claimed))) [
  | inl e ↦ rw e
  | inr e ↦ rw e (
      loop-Blind p room m js (claim_one m j s) (claim_one-IsReady m j js s r) b.1
      ∙ one-Blind p m j s r.stored.0 b.0)
]

All-Blind :
    (now : ℕ) (kinds others : List String) (l : List QueuedJob)
    → ((kind : String) → contains kind kinds ≡ true → contains kind others ≡ false)
    → All (λ j. is_claimable (some kinds) now j ≡ true) l
    → All (Blind (active_in (some others))) l
All-Blind now kinds others [] d h = tt
All-Blind now kinds others (j ∷ js) d h =
    (ground (arith, d j.kind), All-Blind now kinds others js d h.1)

count-update_same :
    (p : QueuedJob → Bool) (id : ℕ) (f : QueuedJob → QueuedJob) (l : List QueuedJob)
    → ((j : QueuedJob) → p (f j) ≡ p j)
    → count p (update id f l) ≡ count p l
unfolding update
count-update_same p id f [] h = refl
count-update_same p id f (x ∷ xs) h = ground (arith, h x, count-update_same p id f xs h)

stamp-count :
    (p : QueuedJob → Bool) (owner : String) (expires : ℕ) (l jobs : List QueuedJob)
    → ((j : QueuedJob) → p (to_leased owner expires j) ≡ p j)
    → count p (stamp_leases owner expires l jobs) ≡ count p jobs
unfolding stamp_leases
stamp-count p owner expires [] jobs h = refl
stamp-count p owner expires (j ∷ js) jobs h =
    stamp-count p owner expires js (update j.id (to_leased owner expires) jobs) h
    ∙ count-update_same p j.id (to_leased owner expires) jobs h

length-map : (f : QueuedJob → QueuedJob) (l : List QueuedJob) → length (map f l) ≡ length l
length-map f [] = refl
length-map f (x ∷ xs) = ap suc (length-map f xs)

module _ (now stamp_time room : ℕ) (owner : String) (lease : ℕ) (kinds : List String) (m : ℕ)
    (jobs : List QueuedJob) where
  -- A claim with leases adds at most the capacity to the active jobs of its kinds.
  pub leased-active :
      IsUnique jobs
      → let s = claim_next_with_lease now stamp_time room owner lease (some kinds) m jobs in
        (count (active_in (some kinds)) s.jobs
          ≡ count (active_in (some kinds)) jobs + length s.claimed)
        × (length s.claimed ≤ room)
  unfolding claim_next_with_lease
  leased-active u =
      let s = claim_next now room (some kinds) m jobs in
      let f = to_leased owner (stamp_time + lease) in
      (
        omega (
          arith,
          claim_next-active now room (some kinds) m jobs u,
          length-map f s.claimed,
          stamp-count (active_in (some kinds)) owner (stamp_time + lease) s.claimed s.jobs
              (λ j. refl),
        ),
        omega (arith, claimed-le_capacity now room (some kinds) m jobs, length-map f s.claimed),
      )

  -- It leaves the number of active jobs of other kinds as it is.
  pub leased-other :
      (others : List String)
      → ((kind : String) → contains kind kinds ≡ true → contains kind others ≡ false)
      → IsUnique jobs
      → count
          (active_in (some others))
          (claim_next_with_lease now stamp_time room owner lease (some kinds) m jobs).jobs
        ≡ count (active_in (some others)) jobs
  unfolding claim_next_with_lease claim_next
  leased-other others d u =
      let s = claim_next now room (some kinds) m jobs in
      stamp-count (active_in (some others)) owner (stamp_time + lease) s.claimed s.jobs (λ j. refl)
      ∙ loop-Blind (active_in (some others)) room m (candidates now (some kinds) jobs) _
          (candidates-IsReady now (some kinds) jobs u)
          (All-Blind now kinds others _ d (candidates_claimable now (some kinds) jobs))
