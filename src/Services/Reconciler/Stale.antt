-- ===== src/Services/Reconciler/Stale.antt =====
-- A claim, and a pass of the reconciler before the claimed job is started.
use imagin.Prelude.{
  ==_refl, ℕ, String, ◌≡◌, refl, true, false, Option, some, List, str_eq, arith, ◌∙◌,
}
use imagin.Jobs.StateMachine.{succeeded}
use imagin.Queue.{JobQueue}
use imagin.Queue.Job.{QueuedJob}
use imagin.Queue.Store.{find}
use imagin.Queue.Store.Laws.{find-update}
use imagin.Queue.Claim.{claim_next, to_dispatched}
use imagin.Queue.Marks.{mark_succeeded, to_succeeded}
use imagin.Comfy.{ComfyStatus}
use imagin.Services.Reconciler.{
  Config, reconcile_job, try_reconcile, settle_job, question, result_of,
}

asks_old_prompt :
    (j : QueuedJob) (p : String)
    → j.prompt_id ≡ some p
    → str_eq p "" ≡ false
    → question (to_dispatched j) ≡ some p
unfolding question
asks_old_prompt j p h e = rw h (rw e refl)

settled :
    (c : Config) (now later draw : ℕ) (status : ComfyStatus) (q : JobQueue) (j : QueuedJob)
    → str_eq status.state "succeeded" ≡ true
    → find j.id q.jobs ≡ some (to_dispatched j)
    → find j.id (settle_job c now later draw status (to_dispatched j) q).jobs
      ≡ some (to_succeeded (result_of status) (to_dispatched j))
unfolding settle_job mark_succeeded
settled c now later draw status q j s h = rw s (
    find-update j.id j.id (to_succeeded (result_of status)) q.jobs (λ x. ground arith)
    ∙ rw (==_refl j.id, h) refl)

-- A job that a claim takes again with the prompt of an earlier attempt still on it is settled by
-- that prompt: where the backend says that the old prompt succeeded, a reconciliation before the
-- job is started lets the job succeed with the old result, and the new attempt is never submitted
-- by then.
pub claimed_settled_by_old_prompt :
    (c : Config) (now later draw : ℕ) (ask : String → ComfyStatus) (room : ℕ)
    (kinds : Option (List String)) (m : ℕ) (q : JobQueue) (j : QueuedJob) (p : String)
    → j.prompt_id ≡ some p
    → str_eq p "" ≡ false
    → str_eq (ask p).state "succeeded" ≡ true
    → find j.id (claim_next now room kinds m q.jobs).jobs ≡ some (to_dispatched j)
    → (after : QueuedJob) × (find j.id
          (reconcile_job c now later draw ask
            (to_dispatched j)
            (record q { jobs = (claim_next now room kinds m q.jobs).jobs })).jobs
        ≡ some after)
      × (after.state ≡ succeeded)
      × (after.result ≡ some (result_of (ask p)))
unfolding reconcile_job try_reconcile
claimed_settled_by_old_prompt c now later draw ask room kinds m q j p h e s t = (
  to_succeeded (result_of (ask p)) (to_dispatched j),
  rw (asks_old_prompt j p h e, reconcile_job, try_reconcile)
      (settled c now later draw (ask p)
        (record q { jobs = (claim_next now room kinds m q.jobs).jobs }) j s t),
  refl,
  refl,
)
