-- ===== src/Services/Reconciler.antt =====
-- backend/app/services/reconciler.py: a pass asks ComfyUI for each active job with a known prompt,
-- and settles the job by the answer. A job is read from the queue when the code reads its fields:
-- the prompt before the question, the rest after the answer.
pub mod Settle
pub mod Calls
pub mod Stale
use imagin.Queue.Counts.{list_active}
use imagin.Prelude.{
  ℕ, ◌+◌, String, Bool, false, Option, none, some, List, [], ◌∷◌, str_eq, ltb, leb, if◌then◌else◌,
  length,
}
use imagin.Prelude.Json
use imagin.Prelude.Json.{Json}
use imagin.Comfy.{ComfyStatus}
use imagin.Jobs.Retry.{default_config, is_retryable, compute_backoff}
use imagin.Queue.{JobQueue}
use imagin.Queue.Job.{QueuedJob}
use imagin.Queue.Store.{find}
use imagin.Queue.Marks.{mark_succeeded, mark_failed, mark_retry_wait, renew_lease}

-- What the reconciler is given: its lease time, and `stale_running_seconds` in microseconds.
pub record Config : Type 0 where
  pub lease : ℕ
  pub stale : ℕ

-- `_fail_or_retry`; the clock stands at `now`, and `draw` decides the jitter.
unfoldable pub fail_or_retry : ℕ → ℕ → QueuedJob → String → Option String → JobQueue → JobQueue
fail_or_retry now draw job code detail q =
    let attempt_no = job.current_attempt + 1 in
    if is_retryable code attempt_no job.max_attempts
    then mark_retry_wait now job.id code detail
        (some (compute_backoff default_config attempt_no draw)) draw q
    else mark_failed job.id code detail q

-- `job.lease_expires_at is not None and job.lease_expires_at < now`
abbrev pub expired : Option ℕ → ℕ → Bool
expired none now = false
expired (some t) now = ltb t now

-- An unknown prompt is given up when the lease has ended, or, without a lease, when the job was
-- queued long ago.
abbrev pub lost : Config → ℕ → QueuedJob → Option ℕ → Bool
lost c now job none = leb (job.queued_at + c.stale) now
lost c now job (some t) = ltb t now

abbrev pub outputs_of : Option Json → Json
outputs_of none = Json.array Json.nil
outputs_of (some outputs) = outputs

-- `{"outputs": status.outputs or []}`
abbrev pub result_of : ComfyStatus → Json
result_of status = Json.object (Json.field "outputs" (outputs_of status.outputs) Json.end)

-- `_resolve_via_comfy` from the answer on. The pass began at `now`; the clock stands at `later`.
unfoldable pub settle_job : Config → ℕ → ℕ → ℕ → ComfyStatus → QueuedJob → JobQueue → JobQueue
settle_job c now later draw status job q =
    if str_eq status.state "succeeded"
    then mark_succeeded job.id (result_of status) q
    else if str_eq status.state "running"
    then renew_lease later job.id c.lease q
    else if str_eq status.state "unknown"
    then (if lost c now job job.lease_expires_at
        then fail_or_retry later draw job "comfy_transient"
            (some "prompt_unknown_to_comfy_after_lease") q
        else q)
    else fail_or_retry later draw job "comfy_transient" status.error q

-- `if job.prompt_id`: `none` and the empty text are false.
abbrev pub known_prompt : Option String → Option String
known_prompt none = none
known_prompt (some p) = if str_eq p "" then none else some p

-- The prompt that the pass asks ComfyUI about.
unfoldable pub question : QueuedJob → Option String
question job = known_prompt job.prompt_id

-- `_reconcile_job` where there is no prompt to ask about.
unfoldable pub settle_unasked : ℕ → ℕ → ℕ → QueuedJob → JobQueue → JobQueue
settle_unasked now later draw job q =
    if expired job.lease_expires_at now
    then fail_or_retry later draw job "worker_lease_expired"
        (some "lease expired with no prompt_id") q
    else q

-- `_reconcile_job` in the `try` of `run_once`, where nothing else runs between the question and the
-- answer. `ask` is the backend's `get_status`; `none` is an exception, and leaves the job as it was.
abbrev pub answered : Config → ℕ → ℕ → ℕ → Option ComfyStatus → QueuedJob → JobQueue → JobQueue
answered c now later draw none job q = q
answered c now later draw (some status) job q = settle_job c now later draw status job q

unfoldable pub try_reconcile :
    Config → ℕ → ℕ → ℕ → (String → Option ComfyStatus) → QueuedJob → JobQueue → JobQueue
try_reconcile c now later draw ask job q = elim (question job) [
  | none ↦ settle_unasked now later draw job q
  | some prompt ↦ answered c now later draw (ask prompt) job q
]

-- `_reconcile_job` with a backend that answers every question.
unfoldable pub reconcile_job :
    Config → ℕ → ℕ → ℕ → (String → ComfyStatus) → QueuedJob → JobQueue → JobQueue
unfolding try_reconcile
reconcile_job c now later draw ask job q =
    try_reconcile c now later draw (λ prompt. some (ask prompt)) job q

abbrev settle_found :
    Config → ℕ → ℕ → ℕ → (String → Option ComfyStatus) → Option QueuedJob → JobQueue → JobQueue
settle_found c now later draw ask none q = q
settle_found c now later draw ask (some job) q = try_reconcile c now later draw ask job q

-- `for job in active`: each job is read as it is by then.
unfoldable pub reconcile_all :
    Config → ℕ → ℕ → ℕ → (String → Option ComfyStatus) → List QueuedJob → JobQueue → JobQueue
reconcile_all c now later draw ask [] q = q
reconcile_all c now later draw ask (j ∷ js) q =
    reconcile_all c now later draw ask js (settle_found c now later draw ask (find j.id q.jobs) q)

-- `run_once`: the queue after the pass, and the number of jobs examined.
unfoldable pub run_once :
    Config → ℕ → ℕ → ℕ → (String → Option ComfyStatus) → JobQueue → JobQueue × ℕ
run_once c now later draw ask q =
    (reconcile_all c now later draw ask (list_active q) q, length (list_active q))
