-- ===== src/Queue/Calls.antt =====
-- Sequences of calls of the queue's methods.
pub mod Keys
pub mod Finished
use imagin.Prelude.{ℕ, String, Option, List, [], ◌∷◌}
use imagin.Prelude.Json.{Json}
use imagin.Queue.{JobQueue, enqueue}
use imagin.Queue.Job.{QueuedJob}
use imagin.Queue.Claim.{claim_next, claim_next_with_lease}
use imagin.Queue.Marks.{
  mark_running, mark_succeeded, mark_failed, mark_retry_wait, set_prompt_id, renew_lease, cancel,
}

-- A call of a method that changes the queue, with its arguments.
pub data Call : Type 0 where
  enqueues : QueuedJob → Call
  claims : ℕ → Option (List String) → ℕ → Call
  claims_with_lease : ℕ → ℕ → String → ℕ → Option (List String) → ℕ → Call
  marks_running : ℕ → Call
  marks_succeeded : ℕ → Json → Call
  marks_failed : ℕ → String → Option String → Call
  marks_retry_wait : ℕ → String → Option String → Option ℕ → ℕ → Call
  sets_prompt_id : ℕ → String → Call
  renews_lease : ℕ → ℕ → Call
  cancels : ℕ → Call

-- The queue after a call at the time `now`.
unfoldable pub apply : ℕ → Call → JobQueue → JobQueue
apply now (enqueues job) q = enqueue job q
apply now (claims capacity kinds max_active) q = record q {
  jobs = (claim_next now capacity kinds max_active q.jobs).jobs;
}
apply now (claims_with_lease stamp_time capacity owner lease kinds max_active) q = record q {
  jobs = (claim_next_with_lease now stamp_time capacity owner lease kinds max_active q.jobs).jobs;
}
apply now (marks_running id) q = mark_running id q
apply now (marks_succeeded id result) q = mark_succeeded id result q
apply now (marks_failed id code detail) q = mark_failed id code detail q
apply now (marks_retry_wait id code detail delay draw) q =
    mark_retry_wait now id code detail delay draw q
apply now (sets_prompt_id id prompt_id) q = set_prompt_id id prompt_id q
apply now (renews_lease id lease) q = renew_lease now id lease q
apply now (cancels id) q = (cancel id q).0

unfoldable pub run : List (ℕ × Call) → JobQueue → JobQueue
unfolding apply
run [] q = q
run ((now, c) ∷ rest) q = run rest (apply now c q)
