-- ===== src/Queue/Calls/Keys.antt =====
-- The keys of the dictionary under the calls.
use imagin.Prelude.{ℕ, ◌+◌, String, refl, List, [], ◌∷◌, arith, Option}
use imagin.Queue.{JobQueue, enqueue}
use imagin.Queue.Job.{QueuedJob}
use imagin.Queue.Store.{update}
use imagin.Queue.Store.Unique.{IsUnique, update-IsUnique, put-IsUnique}
use imagin.Queue.Claim.{to_leased, stamp_leases, claim_next_with_lease}
use imagin.Queue.Claim.Loop.{claim_next-IsUnique}
use imagin.Queue.Marks.{
  mark_running, mark_succeeded, mark_failed, mark_retry_wait, set_prompt_id, renew_lease, cancel,
  to_running, to_succeeded, to_failed, to_retry_wait, with_prompt, renewed, to_cancelled,
}
use imagin.Queue.Calls.{
  Call, enqueues, claims, claims_with_lease, marks_running, marks_succeeded, marks_failed,
  marks_retry_wait, sets_prompt_id, renews_lease, cancels, apply,
}

stamp-IsUnique :
    (owner : String) (expires : ℕ) (l jobs : List QueuedJob)
    → IsUnique jobs
    → IsUnique (stamp_leases owner expires l jobs)
unfolding stamp_leases
stamp-IsUnique owner expires [] jobs u = u
stamp-IsUnique owner expires (j ∷ js) jobs u =
    stamp-IsUnique owner expires js (update j.id (to_leased owner expires) jobs)
      (update-IsUnique j.id (to_leased owner expires) jobs (λ x. refl) u)

-- Every call keeps the identifiers distinct.
pub apply-IsUnique :
    (now : ℕ) (c : Call) (q : JobQueue) → IsUnique q.jobs → IsUnique (apply now c q).jobs
unfolding apply enqueue mark_running mark_succeeded mark_failed mark_retry_wait set_prompt_id
    renew_lease cancel claim_next_with_lease
apply-IsUnique now (enqueues job) q u = put-IsUnique job q.jobs u
apply-IsUnique now (claims capacity kinds m) q u = claim_next-IsUnique now capacity kinds m q.jobs u
apply-IsUnique now (claims_with_lease stamp capacity owner lease kinds m) q u =
    stamp-IsUnique owner (stamp + lease) _ _ (claim_next-IsUnique now capacity kinds m q.jobs u)
apply-IsUnique now (marks_running id) q u = update-IsUnique id to_running q.jobs (λ j. refl) u
apply-IsUnique now (marks_succeeded id r) q u =
    update-IsUnique id (to_succeeded r) q.jobs (λ j. ground arith) u
apply-IsUnique now (marks_failed id code detail) q u =
    update-IsUnique id (to_failed code detail) q.jobs (λ j. ground arith) u
apply-IsUnique now (marks_retry_wait id code detail delay draw) q u =
    update-IsUnique id (to_retry_wait now code detail delay draw) q.jobs (λ j. ground arith) u
apply-IsUnique now (sets_prompt_id id p) q u =
    update-IsUnique id (with_prompt p) q.jobs (λ j. refl) u
apply-IsUnique now (renews_lease id lease) q u =
    update-IsUnique id (renewed (now + lease)) q.jobs (λ j. ground arith) u
apply-IsUnique now (cancels id) q u =
    ground (arith, update-IsUnique id to_cancelled q.jobs (λ j. ground arith) u)

pub leased-IsUnique :
    (now stamp_time room : ℕ) (owner : String) (lease : ℕ) (kinds : Option (List String)) (m : ℕ)
    (jobs : List QueuedJob)
    → IsUnique jobs
    → IsUnique (claim_next_with_lease now stamp_time room owner lease kinds m jobs).jobs
unfolding claim_next_with_lease
leased-IsUnique now stamp_time room owner lease kinds m jobs u =
    stamp-IsUnique owner (stamp_time + lease) _ _ (claim_next-IsUnique now room kinds m jobs u)
