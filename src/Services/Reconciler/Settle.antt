-- ===== src/Services/Reconciler/Settle.antt =====
-- What a reconciliation does to its job.
use mathlib.Core.Path.{subst}
use imagin.Prelude.{
  eq_iff, ◌≤◌, ℕ, ◌+◌, ◌<◌, String, ◌≡◌, refl, ◌∙◌, inl, inr, true, false, Option, none, some,
  arith, str_eq, ==_refl, Bool-cases, Option-cases,
}
use imagin.Jobs.StateMachine.{retry_wait, succeeded, failed}
use imagin.Jobs.Retry.{is_retryable}
use imagin.Queue.{JobQueue}
use imagin.Queue.Job.{QueuedJob, is_active}
use imagin.Queue.Store.{find}
use imagin.Queue.Store.Laws.{KeepsId, find-update}
use imagin.Queue.Marks.{
  alter, mark_running, mark_succeeded, mark_failed, mark_retry_wait, renew_lease, to_running,
  to_succeeded, to_failed, to_retry_wait, renewed,
}
use imagin.Comfy.{ComfyStatus}
use imagin.Services.Reconciler.{
  Config, fail_or_retry, expired, lost, result_of, settle_job, question, settle_unasked,
  reconcile_job, try_reconcile,
}

alter_found :
    (f : QueuedJob → QueuedJob) (q : JobQueue) (job : QueuedJob)
    → KeepsId f
    → find job.id q.jobs ≡ some job
    → find job.id (alter job.id f q).jobs ≡ some (f job)
alter_found f q job keeps h = find-update job.id job.id f q.jobs keeps ∙ rw (==_refl job.id, h) refl

-- What became of a job that a reconciliation settled, where `ask` gives the backend's answers.
pub data Settled (ask : String → ComfyStatus) (job after : QueuedJob) : Type 0 where
  -- nothing but the end of its lease may have changed
  kept :
      (lease_end : Option ℕ)
      → after ≡ record job { lease_expires_at = lease_end }
      → Settled ask job after
  -- the backend said so of its prompt
  finished :
      (prompt : String)
      → question job ≡ some prompt
      → (ask prompt).state ≡ "succeeded"
      → after.state ≡ succeeded
      → after.result ≡ some (result_of (ask prompt))
      → after.error_code ≡ none
      → Settled ask job after
  -- another attempt is left
  retried :
      after.state ≡ retry_wait
      → after.current_attempt ≡ job.current_attempt + 1
      → after.current_attempt < job.max_attempts
      → Settled ask job after
  -- no attempt is left
  gave_up :
      after.state ≡ failed
      → after.current_attempt ≡ job.current_attempt
      → job.max_attempts ≤ job.current_attempt + 1
      → Settled ask job after

abbrev pub SettledIn : (String → ComfyStatus) → QueuedJob → JobQueue → Type 0
SettledIn ask job q =
    (after : QueuedJob) × (find job.id q.jobs ≡ some after) × Settled ask job after

-- An error with the code is retried while attempts are left.
abbrev IsTransient : String → Type 0
IsTransient code = (n m : ℕ) → is_retryable code n m ≡ false → m ≤ n

comfy-IsTransient : IsTransient "comfy_transient"
unfolding is_retryable
comfy-IsTransient n m h = ground arith

lease-IsTransient : IsTransient "worker_lease_expired"
unfolding is_retryable
lease-IsTransient n m h = ground arith

retryable_room : (code : String) (n m : ℕ) → is_retryable code n m ≡ true → n < m
unfolding is_retryable
retryable_room code n m h = ground arith

retry-SettledIn :
    (ask : String → ComfyStatus) (now draw : ℕ) (code : String) (detail : Option String)
    (delay : Option ℕ) (q : JobQueue) (job : QueuedJob)
    → find job.id q.jobs ≡ some job
    → is_active job ≡ true
    → job.current_attempt + 1 < job.max_attempts
    → SettledIn ask job (mark_retry_wait now job.id code detail delay draw q)
unfolding mark_retry_wait
retry-SettledIn ask now draw code detail delay q job h a room = (
  to_retry_wait now code detail delay draw job,
  alter_found (to_retry_wait now code detail delay draw) q job (λ j. ground arith) h,
  retried (ground arith) (ground arith) (ground arith),
)

fail-SettledIn :
    (ask : String → ComfyStatus) (code : String) (detail : Option String) (q : JobQueue)
    (job : QueuedJob)
    → find job.id q.jobs ≡ some job
    → is_active job ≡ true
    → job.max_attempts ≤ job.current_attempt + 1
    → SettledIn ask job (mark_failed job.id code detail q)
unfolding mark_failed
fail-SettledIn ask code detail q job h a out = (
  to_failed code detail job,
  alter_found (to_failed code detail) q job (λ j. ground arith) h,
  gave_up (ground arith) (ground arith) out,
)

fail_or_retry-SettledIn :
    (ask : String → ComfyStatus) (now draw : ℕ) (code : String) (detail : Option String)
    (q : JobQueue) (job : QueuedJob)
    → find job.id q.jobs ≡ some job
    → is_active job ≡ true
    → IsTransient code
    → SettledIn ask job (fail_or_retry now draw job code detail q)
unfolding fail_or_retry
fail_or_retry-SettledIn ask now draw code detail q job h a t =
    elim (Bool-cases (is_retryable code (job.current_attempt + 1) job.max_attempts)) [
      | inl e ↦
          rw e (retry-SettledIn ask now draw code detail _ q job h a (retryable_room code _ _ e))
      | inr e ↦ rw e (fail-SettledIn ask code detail q job h a (t _ _ e))
    ]

success-SettledIn :
    (ask : String → ComfyStatus) (p : String) (q : JobQueue) (job : QueuedJob)
    → find job.id q.jobs ≡ some job
    → is_active job ≡ true
    → question job ≡ some p
    → (ask p).state ≡ "succeeded"
    → SettledIn ask job (mark_succeeded job.id (result_of (ask p)) q)
unfolding mark_succeeded
success-SettledIn ask p q job h a known said = (
  to_succeeded (result_of (ask p)) job,
  alter_found (to_succeeded (result_of (ask p))) q job (λ j. ground arith) h,
  finished p known said (ground arith) (ground arith) (ground arith),
)

renewed-lease :
    (t : ℕ) (job : QueuedJob)
    → (e : Option ℕ) × (renewed t job ≡ record job { lease_expires_at = e })
renewed-lease t job = elim (Bool-cases (is_active job)) [
  | inl a ↦ (some t, rw a refl)
  | inr a ↦ (job.lease_expires_at, rw a refl)
]

renew-SettledIn :
    (ask : String → ComfyStatus) (now lease : ℕ) (q : JobQueue) (job : QueuedJob)
    → find job.id q.jobs ≡ some job
    → SettledIn ask job (renew_lease now job.id lease q)
unfolding renew_lease
renew-SettledIn ask now lease q job h =
    let (e, same) = renewed-lease (now + lease) job in
    (
      renewed (now + lease) job,
      alter_found (renewed (now + lease)) q job (λ j. ground arith) h,
      kept e same,
    )

settle_job-SettledIn :
    (c : Config) (now later draw : ℕ) (ask : String → ComfyStatus) (p : String) (q : JobQueue)
    (job : QueuedJob)
    → find job.id q.jobs ≡ some job
    → is_active job ≡ true
    → question job ≡ some p
    → SettledIn ask job (settle_job c now later draw (ask p) job q)
unfolding settle_job
settle_job-SettledIn c now later draw ask p q job h a known =
    elim (Bool-cases (str_eq (ask p).state "succeeded")) [
      | inl e ↦
          rw e (success-SettledIn ask p q job h a known ((eq_iff (ask p).state "succeeded").0 e))
      | inr e ↦ rw e (elim (Bool-cases (str_eq (ask p).state "running")) [
        | inl r ↦ rw r (renew-SettledIn ask later c.lease q job h)
        | inr r ↦ rw r (elim (Bool-cases (str_eq (ask p).state "unknown")) [
          | inl u ↦ rw u (elim (Bool-cases (lost c now job job.lease_expires_at)) [
            | inl l ↦ rw l (fail_or_retry-SettledIn ask later draw _ _ q job h a comfy-IsTransient)
            | inr l ↦ rw l (job, h, kept job.lease_expires_at refl)
          ])
          | inr u ↦ rw u (fail_or_retry-SettledIn ask later draw _ _ q job h a comfy-IsTransient)
        ])
      ])
    ]

-- A reconciled active job of the queue stays as it is but for the end of its lease; or it succeeds
-- without an error, where the backend says so of its prompt, with the outputs of that answer; or it
-- is put back for another attempt, counted and below its maximum; or, only where no attempt is left,
-- it fails.
pub reconcile_job-SettledIn :
    (c : Config) (now later draw : ℕ) (ask : String → ComfyStatus) (q : JobQueue) (job : QueuedJob)
    → find job.id q.jobs ≡ some job
    → is_active job ≡ true
    → SettledIn ask job (reconcile_job c now later draw ask job q)
unfolding reconcile_job try_reconcile settle_unasked
reconcile_job-SettledIn c now later draw ask q job h a = elim (Option-cases (question job)) [
  | inr (p, e) ↦
      rw (e, reconcile_job, try_reconcile) (settle_job-SettledIn c now later draw ask p q job h a e)
  | inl e ↦
      rw (e, reconcile_job, try_reconcile)
        (elim (Bool-cases (expired job.lease_expires_at now)) [
          | inl x ↦ rw x (fail_or_retry-SettledIn ask later draw _ _ q job h a lease-IsTransient)
          | inr x ↦ rw x (job, h, kept job.lease_expires_at refl)
        ])
]

-- From the start of a new attempt until its prompt is known, a reconciliation within the lease
-- changes nothing, whatever prompt the job had before and whatever ComfyUI says of it.
pub mark_running-reconcile :
    (c : Config) (now later draw id : ℕ) (ask : String → ComfyStatus) (q : JobQueue)
    (j job : QueuedJob)
    → find id q.jobs ≡ some j
    → expired j.lease_expires_at now ≡ false
    → find id (mark_running id q).jobs ≡ some job
    → reconcile_job c now later draw ask job (mark_running id q) ≡ mark_running id q
unfolding reconcile_job try_reconcile settle_unasked question mark_running
mark_running-reconcile c now later draw id ask q j job h e g =
    let s : to_running j ≡ job = ground (arith, find-update id id to_running q.jobs (λ x. refl)) in
    subst (λ x. reconcile_job c now later draw ask x (mark_running id q) ≡ mark_running id q) s
      (rw e)
