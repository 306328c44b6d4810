-- ===== src/Queue/Examples.antt =====
-- Tests of the queue, and its theorems at concrete inputs.
use imagin.Queue.Claim.Tally.{active_of}
use imagin.Queue.Counts.{queue_rank}
use imagin.Queue.Claim.{
  claim_next_with_lease, claim_next, to_dispatched, claim_loop, claim_one, count_of, tally, bump,
}
use imagin.Prelude.{
  ℕ, List, [], ◌∷◌, none, some, refl, true, ◌+◌, ◌≤◌, ◌<◌, max, ◌≡◌, ◌⊎◌, map, arith, length,
  filter, count, All,
}
use imagin.Queue.Job.{QueuedJob, is_claimable}
use imagin.Queue.Store.{find}
use imagin.Queue.Store.Unique.{IsUnique, IsStored}
use imagin.Queue.Order.{precedes, sort}
use imagin.Queue.Fixtures.{early, late, over, four, queue}
use imagin.Queue.Calls.{Call, cancels, claims, run}
use imagin.Queue.Calls.Finished.{Holds, finished_kept}
use imagin.Queue.Claim.Left.{claim_next-fate}
use imagin.Queue.Claim.Cap.{claim_next-cap}
use imagin.Queue.Claim.Frame.{claim_next-change}
use imagin.Queue.Claim.Lease.{HasLease, claim_next_with_lease_returned}
use imagin.Queue.Counts.Rank.{queue_rank_bounds, ahead_of, waiting, not_after}

abbrev ids : List QueuedJob → List ℕ
ids = map (λ j. j.id)

claims_older_first : ids (claim_next 100 1 none 0 four).claimed ≡ 1 ∷ []
unfolding claim_next claim_loop sort precedes claim_one
claims_older_first = refl

claims_up_to_the_cap : ids (claim_next 100 5 none 2 four).claimed ≡ 1 ∷ []
unfolding claim_next claim_loop sort precedes claim_one count_of tally bump
claims_up_to_the_cap = refl

four-IsUnique : IsUnique four
unfolding find
four-IsUnique = (refl, (refl, (refl, (refl, tt))))

found_early : find 1 four ≡ some early
unfolding find
found_early = refl

found_over : find 4 four ≡ some over
unfolding find
found_over = refl

abbrev calls : List (ℕ × Call)
calls = (100, claims 5 none 2) ∷ (101, cancels 4) ∷ []

finished_kept_example : Holds 4 over (run calls queue).jobs
finished_kept_example =
    finished_kept 4 calls queue over four-IsUnique found_over refl (tt, (tt, tt))

claim_next-fate_example :
    let s = claim_next 100 5 none 2 four in
    (find 2 s.jobs ≡ some (to_dispatched late))
    ⊎ (length s.claimed ≡ 5) × All (λ c. precedes c late ≡ true) s.claimed
    ⊎ (0 < 2) × (2 ≤ count (active_of 7) s.jobs)
unfolding find
claim_next-fate_example = claim_next-fate 100 5 none 2 four late four-IsUnique refl refl

claim_next-cap_example :
    count (active_of 7) (claim_next 100 5 none 2 four).jobs ≤ max 2 (count (active_of 7) four)
claim_next-cap_example = claim_next-cap 100 5 none 2 four 7 four-IsUnique (omega arith)

claim_next-change_example :
    (find 1 (claim_next 100 5 none 2 four).jobs ≡ find 1 four)
    ⊎ ((j : QueuedJob) × (find 1 four ≡ some j)
        × (is_claimable none 100 j ≡ true)
        × (find 1 (claim_next 100 5 none 2 four).jobs ≡ some (to_dispatched j)))
claim_next-change_example = claim_next-change 100 5 none 2 four 1 four-IsUnique

claim_next_with_lease_returned_example :
    let s = claim_next_with_lease 100 101 5 "scheduler" 30 none 2 four in
    IsStored s.jobs s.claimed × All (HasLease "scheduler" 131) s.claimed
claim_next_with_lease_returned_example =
    claim_next_with_lease_returned 100 101 5 "scheduler" 30 none 2 four four-IsUnique

queue_rank_bounds_example :
    (n : ℕ) × (queue_rank 2 none queue ≡ some n)
    × (count (ahead_of late) (filter (waiting none) four) ≤ n)
    × (n + 1 ≤ count (not_after late) (filter (waiting none) four))
unfolding find
queue_rank_bounds_example = queue_rank_bounds 2 none queue late four-IsUnique refl refl
