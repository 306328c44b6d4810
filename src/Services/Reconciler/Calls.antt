-- ===== src/Services/Reconciler/Calls.antt =====
-- A pass of the reconciler, as a sequence of calls of the queue.
use imagin.Prelude.{
  ℕ, ◌+◌, String, ◌≡◌, refl, sym, ap, ◌∙◌, inl, inr, true, Option, none, some, List, [], ◌∷◌, ◌++◌,
  str_eq, Bool-cases, Option-cases,
}
use imagin.Jobs.Retry.{default_config, is_retryable, compute_backoff}
use imagin.Queue.{JobQueue}
use imagin.Queue.Job.{QueuedJob, is_finished}
use imagin.Queue.Store.{find}
use imagin.Queue.Store.Unique.{IsUnique}
use imagin.Queue.Counts.{list_active}
use imagin.Queue.Calls.{
  Call, marks_succeeded, marks_failed, marks_retry_wait, renews_lease, apply, run,
}
use imagin.Queue.Calls.Finished.{AllSpare, Holds, finished_kept}
use imagin.Comfy.{ComfyStatus}
use imagin.Services.Reconciler.{
  Config, fail_or_retry, expired, lost, result_of, settle_job, question, settle_unasked, answered,
  try_reconcile, settle_found, reconcile_all, run_once,
}

-- The second queue is reached from the first by calls that spare every job.
abbrev pub ByCalls : JobQueue → JobQueue → Type 0
ByCalls q r = (calls : List (ℕ × Call)) × (r ≡ run calls q) × ((id : ℕ) → AllSpare id calls)

none-ByCalls : (q : JobQueue) → ByCalls q q
unfolding run
none-ByCalls q = ([], refl, λ id. tt)

fail_or_retry-ByCalls :
    (now draw : ℕ) (job : QueuedJob) (code : String) (detail : Option String) (q : JobQueue)
    → ByCalls q (fail_or_retry now draw job code detail q)
unfolding fail_or_retry run
fail_or_retry-ByCalls now draw job code detail q =
    elim (Bool-cases (is_retryable code (job.current_attempt + 1) job.max_attempts)) [
      | inl e ↦ (
        (
          now,
          marks_retry_wait job.id code detail
              (some (compute_backoff default_config (job.current_attempt + 1) draw)) draw,
        )
            ∷ [],
        rw e,
        λ id. (tt, tt),
      )
      | inr e ↦ ((now, marks_failed job.id code detail) ∷ [], rw e, λ id. (tt, tt))
    ]

settle_job-ByCalls :
    (c : Config) (now later draw : ℕ) (status : ComfyStatus) (job : QueuedJob) (q : JobQueue)
    → ByCalls q (settle_job c now later draw status job q)
unfolding settle_job run
settle_job-ByCalls c now later draw status job q =
    elim (Bool-cases (str_eq status.state "succeeded")) [
      | inl e ↦ rw e ((later, marks_succeeded job.id (result_of status)) ∷ [], refl, λ id. (tt, tt))
      | inr e ↦ rw e (elim (Bool-cases (str_eq status.state "running")) [
        | inl r ↦ rw r ((later, renews_lease job.id c.lease) ∷ [], refl, λ id. (tt, tt))
        | inr r ↦ rw r (elim (Bool-cases (str_eq status.state "unknown")) [
          | inl u ↦ rw u (elim (Bool-cases (lost c now job job.lease_expires_at)) [
            | inl l ↦ rw l (fail_or_retry-ByCalls later draw job _ _ q)
            | inr l ↦ rw l (none-ByCalls q)
          ])
          | inr u ↦ rw u (fail_or_retry-ByCalls later draw job _ _ q)
        ])
      ])
    ]

answered-ByCalls :
    (c : Config) (now later draw : ℕ) (answer : Option ComfyStatus) (job : QueuedJob) (q : JobQueue)
    → ByCalls q (answered c now later draw answer job q)
answered-ByCalls c now later draw none job q = none-ByCalls q
answered-ByCalls c now later draw (some status) job q =
    settle_job-ByCalls c now later draw status job q

try_reconcile-ByCalls :
    (c : Config) (now later draw : ℕ) (ask : String → Option ComfyStatus) (job : QueuedJob)
    (q : JobQueue)
    → ByCalls q (try_reconcile c now later draw ask job q)
unfolding try_reconcile settle_unasked
try_reconcile-ByCalls c now later draw ask job q = elim (Option-cases (question job)) [
  | inr (p, e) ↦ rw (e, try_reconcile) (answered-ByCalls c now later draw (ask p) job q)
  | inl e ↦
      rw (e, try_reconcile)
        (elim (Bool-cases (expired job.lease_expires_at now)) [
          | inl x ↦ rw x (fail_or_retry-ByCalls later draw job _ _ q)
          | inr x ↦ rw x (none-ByCalls q)
        ])
]

settle_found-ByCalls :
    (c : Config) (now later draw : ℕ) (ask : String → Option ComfyStatus) (o : Option QueuedJob)
    (q : JobQueue)
    → ByCalls q (settle_found c now later draw ask o q)
settle_found-ByCalls c now later draw ask none q = none-ByCalls q
settle_found-ByCalls c now later draw ask (some job) q =
    try_reconcile-ByCalls c now later draw ask job q

run-append : (xs ys : List (ℕ × Call)) (q : JobQueue) → run (xs ++ ys) q ≡ run ys (run xs q)
unfolding run
run-append [] ys q = refl
run-append ((now, c) ∷ xs) ys q = run-append xs ys (apply now c q)

AllSpare-append :
    (id : ℕ) (xs ys : List (ℕ × Call)) → AllSpare id xs → AllSpare id ys → AllSpare id (xs ++ ys)
AllSpare-append id [] ys h k = k
AllSpare-append id ((now, c) ∷ xs) ys h k = (h.0, AllSpare-append id xs ys h.1 k)

ByCalls-trans : (q r s : JobQueue) → ByCalls q r → ByCalls r s → ByCalls q s
ByCalls-trans q r s (xs, e, h) (ys, f, k) = (
  xs ++ ys,
  f ∙ ap (run ys) e ∙ sym (run-append xs ys q),
  λ id. AllSpare-append id xs ys (h id) (k id),
)

reconcile_all-ByCalls :
    (c : Config) (now later draw : ℕ) (ask : String → Option ComfyStatus) (l : List QueuedJob)
    (q : JobQueue)
    → ByCalls q (reconcile_all c now later draw ask l q)
unfolding reconcile_all
reconcile_all-ByCalls c now later draw ask [] q = none-ByCalls q
reconcile_all-ByCalls c now later draw ask (j ∷ js) q =
    let r = settle_found c now later draw ask (find j.id q.jobs) q in
    ByCalls-trans q r _ (settle_found-ByCalls c now later draw ask (find j.id q.jobs) q)
      (reconcile_all-ByCalls c now later draw ask js r)

-- Where no two jobs share an identifier, and whatever ComfyUI answers or fails to answer, a pass of the reconciler
-- leaves each finished job with its state, result and error.
pub run_once-finished :
    (c : Config) (now later draw : ℕ) (ask : String → Option ComfyStatus) (q : JobQueue) (id : ℕ)
    (j : QueuedJob)
    → IsUnique q.jobs
    → find id q.jobs ≡ some j
    → is_finished j ≡ true
    → Holds id j (run_once c now later draw ask q).0.jobs
unfolding run_once
run_once-finished c now later draw ask q id j u f d =
    let (calls, e, h) = reconcile_all-ByCalls c now later draw ask (list_active q) q in
    rw e (finished_kept id calls q j u f d (h id))
