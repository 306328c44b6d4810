-- ===== src/Queue/Claim.antt =====
-- `claim_next` and `claim_next_with_lease`: the candidates in order, one by one, up to the capacity
-- and the number of active jobs that one user may have.
pub mod Tally
pub mod Ready
pub mod Loop
pub mod Cap
pub mod Left
pub mod Frame
pub mod Lease
pub mod Lanes
use imagin.Prelude.{
  ℕ, suc, ◌+◌, String, ◌&&◌, Option, some, List, [], ◌∷◌, ◌++◌, map, ltb, leb, ◌==◌, if◌then◌else◌,
  length, filter,
}
use imagin.Jobs.StateMachine.{dispatched}
use imagin.Queue.Job.{QueuedJob, is_active, is_claimable}
use imagin.Queue.Store.{update}
use imagin.Queue.Order.{sort}

-- `active_counts`, a dictionary from users to numbers of jobs.
abbrev pub Counts : Type 0
Counts = List (ℕ × ℕ)

-- `active_counts.get(user_id, 0)`
unfoldable pub count_of : ℕ → Counts → ℕ
count_of user [] = 0
count_of user ((u, n) ∷ rest) = if u == user then n else count_of user rest

-- `active_counts[user_id] = active_counts.get(user_id, 0) + 1`
unfoldable pub bump : ℕ → Counts → Counts
bump user [] = (user, 1) ∷ []
bump user ((u, n) ∷ rest) = if u == user then (u, suc n) ∷ rest else (u, n) ∷ bump user rest

-- The loop over the jobs that are active before the claim.
unfoldable pub tally : List QueuedJob → Counts → Counts
tally [] counts = counts
tally (j ∷ js) counts = tally js (if is_active j then bump j.user_id counts else counts)

-- `job.state = "dispatched"`
abbrev pub to_dispatched : QueuedJob → QueuedJob
to_dispatched j = record j { state = dispatched }

-- The variables of the loop, and the jobs that it changes.
pub record Claiming : Type 0 where
  pub claimed : List QueuedJob
  pub counts : Counts
  pub jobs : List QueuedJob

-- The body of the loop below its `break`.
unfoldable pub claim_one : ℕ → QueuedJob → Claiming → Claiming
claim_one max_active job s =
    if ltb 0 max_active && leb max_active (count_of job.user_id s.counts) then s else record {
      claimed = s.claimed ++ to_dispatched job ∷ [];
      counts = if ltb 0 max_active then bump job.user_id s.counts else s.counts;
      jobs = update job.id to_dispatched s.jobs;
    }

-- `for job in candidates`
unfoldable pub claim_loop : ℕ → ℕ → List QueuedJob → Claiming → Claiming
claim_loop capacity max_active [] s = s
claim_loop capacity max_active (job ∷ rest) s =
    if leb capacity (length s.claimed)
    then s
    else claim_loop capacity max_active rest (claim_one max_active job s)

abbrev pub candidates : ℕ → Option (List String) → List QueuedJob → List QueuedJob
candidates now kinds jobs = sort (filter (is_claimable kinds now) jobs)

abbrev pub start : ℕ → List QueuedJob → Claiming
start max_active jobs = record {
  claimed = [];
  counts = if ltb 0 max_active then tally jobs [] else [];
  jobs = jobs;
}

unfoldable pub claim_next : ℕ → ℕ → Option (List String) → ℕ → List QueuedJob → Claiming
claim_next now capacity kinds max_active jobs =
    claim_loop capacity max_active (candidates now kinds jobs) (start max_active jobs)

-- `job.lease_owner = …`, `job.lease_expires_at = …`
abbrev pub to_leased : String → ℕ → QueuedJob → QueuedJob
to_leased owner expires_at j = record j {
  lease_owner = some owner;
  lease_expires_at = some expires_at;
}

-- The loop over the claimed jobs.
unfoldable pub stamp_leases : String → ℕ → List QueuedJob → List QueuedJob → List QueuedJob
stamp_leases owner expires_at [] jobs = jobs
stamp_leases owner expires_at (j ∷ js) jobs =
    stamp_leases owner expires_at js (update j.id (to_leased owner expires_at) jobs)

-- The clock is read once for the claim, and again, at `stamp_time`, for the leases.
unfoldable pub claim_next_with_lease :
    ℕ → ℕ → ℕ → String → ℕ → Option (List String) → ℕ → List QueuedJob → Claiming
claim_next_with_lease now stamp_time capacity owner lease kinds max_active jobs =
    let s = claim_next now capacity kinds max_active jobs in
    record s {
      claimed = map (to_leased owner (stamp_time + lease)) s.claimed;
      jobs = stamp_leases owner (stamp_time + lease) s.claimed s.jobs;
    }
