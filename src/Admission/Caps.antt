-- ===== src/Admission/Caps.antt =====
-- The caps on the backlog after an admission.
use imagin.Prelude.{
  ◌+◌, ◌≤◌, ◌<◌, ◌≡◌, inl, inr, true, false, ◌&&◌, none, arith, ltb, leb, ◌==◌, Bool-cases,
  Option-cases, String, Option, some,
}
use imagin.Prelude.Json.{Json, Fields}
use imagin.Prelude.Python.{Python}
use imagin.Config.{Settings}
use imagin.Jobs.Registry.{WorkflowDefinition, resolve_workflow}
use imagin.Jobs.Idempotency.{check_idempotency}
use imagin.Queue.{JobQueue, enqueue}
use imagin.Queue.Job.{QueuedJob, is_backlog}
use imagin.Queue.Store.{find}
use imagin.Queue.Store.Laws.{count-put}
use imagin.Queue.Counts.{
  count_global_backlog, count_conversation_backlog, count_user_backlog, find_by_idempotency_key,
  in_conversation,
}
use imagin.Admission.{
  AdmissionResult, Request, Answer, returns, raises, ◌>>=◌, prepare_inputs, check_global_cap,
  check_own_cap, own_backlog, new_job, new_result, replay_result, admit_new, admit_checked,
  admit_generation_job, or_unknown,
}

-- What `q'` is after a request: as before for a replay; with one more job, under the new identifier
-- and within both caps, for a new job.
pub data Admitted (s : Settings) (r : Request) (q q' : JobQueue) (a : AdmissionResult)
    : Type 0 where
  replayed_job : a.replayed ≡ true → q' ≡ q → Admitted s r q q' a
  new_one :
      (inputs : Fields)
      → a.replayed ≡ false
      → a.id ≡ r.new_id
      → q' ≡ enqueue (new_job r inputs) q
      → count_global_backlog q' ≡ count_global_backlog q + 1
      → (0 < s.global_queue_cap → count_global_backlog q' ≤ s.global_queue_cap)
      → (0 < s.max_queued_jobs_per_user → own_backlog r q' ≤ s.max_queued_jobs_per_user)
      → Admitted s r q q' a

global-enqueue :
    (r : Request) (inputs : Fields) (q : JobQueue)
    → find r.new_id q.jobs ≡ none
    → count_global_backlog (enqueue (new_job r inputs) q) ≡ count_global_backlog q + 1
unfolding count_global_backlog enqueue new_job
global-enqueue r inputs q h = ground (arith, count-put is_backlog (new_job r inputs) q.jobs h)

own-enqueue :
    (r : Request) (inputs : Fields) (q : JobQueue)
    → find r.new_id q.jobs ≡ none
    → own_backlog r (enqueue (new_job r inputs) q) ≤ own_backlog r q + 1
unfolding count_user_backlog count_conversation_backlog enqueue new_job
own-enqueue r inputs q h = elim (Option-cases r.conversation_id) [
  | inl e ↦ rw e (
      ground (
        arith,
        count-put (λ j. j.user_id == r.user_id && is_backlog j) (new_job r inputs) q.jobs h,
      ))
  | inr (c, e) ↦ rw e (
      ground (
        arith,
        count-put (λ j. in_conversation c j.conversation_id && is_backlog j) (new_job r inputs)
            q.jobs h,
      ))
]

admit_new-Admitted :
    (s : Settings) (w : WorkflowDefinition) (r : Request) (inputs : Fields) (q q' : JobQueue)
    (a : AdmissionResult)
    → find r.new_id q.jobs ≡ none
    → admit_new s w r inputs q ≡ returns (a, q')
    → Admitted s r q q' a
unfolding admit_new check_global_cap check_own_cap new_result
admit_new-Admitted s w r inputs q q' a f h =
    elim (Bool-cases
      (ltb 0 s.global_queue_cap && leb s.global_queue_cap (count_global_backlog q))) [
        | inl e ↦ absurd (ground arith)
        | inr e ↦
            elim (Bool-cases (
              ltb 0 s.max_queued_jobs_per_user
              && leb s.max_queued_jobs_per_user (own_backlog r q))) [
                | inl g ↦ absurd (ground arith)
                | inr g ↦
                    let p : q' ≡ enqueue (new_job r inputs) q = ground arith in
                    let grow = global-enqueue r inputs q f in
                    let own = own-enqueue r inputs q f in
                    new_one inputs (ground arith) (ground arith) p (rw p grow)
                      (λ pos. rw p (ground arith)) (λ pos. rw p (ground arith))
              ]
      ]

module _ (py : Python) (dumps : Json → String) (sha256 : String → String) (s : Settings) where
  checked-Admitted :
      (w : WorkflowDefinition) (r : Request) (inputs : Fields) (o : Option QueuedJob)
      (q q' : JobQueue) (a : AdmissionResult)
      → find r.new_id q.jobs ≡ none
      → admit_checked py dumps sha256 s w r inputs o q ≡ returns (a, q')
      → Admitted s r q q' a
  unfolding admit_checked check_idempotency replay_result
  checked-Admitted w r inputs none q q' a f h = admit_new-Admitted s w r inputs q q' a f h
  checked-Admitted w r inputs (some j) q q' a f h = replayed_job (ground arith) (ground arith)

  resolved-Admitted :
      (o : Option WorkflowDefinition) (r : Request) (q q' : JobQueue) (a : AdmissionResult)
      → find r.new_id q.jobs ≡ none
      → (or_unknown o >>= λ w. prepare_inputs py s w r.inputs >>= λ inputs.
          admit_checked py dumps sha256 s w r inputs
            (find_by_idempotency_key r.user_id r.idempotency_key r.workflow_name q)
            q)
        ≡ returns (a, q')
      → Admitted s r q q' a
  resolved-Admitted none r q q' a f h = absurd (ground arith)
  resolved-Admitted (some w) r q q' a f h = go (prepare_inputs py s w r.inputs) h
    where
      go :
          (p : Answer Fields)
          → (p >>= λ inputs.
              admit_checked py dumps sha256 s w r inputs
                (find_by_idempotency_key r.user_id r.idempotency_key r.workflow_name q)
                q)
            ≡ returns (a, q')
          → Admitted s r q q' a
      go (raises e) k = absurd (ground arith)
      go (returns inputs) k = checked-Admitted w r inputs _ q q' a f k

  -- An answer without an error is a replay, and the queue is as before; or it is the new job, the
  -- only change is its arrival, and both the backlog of the system and that of the user (of the
  -- conversation, where there is one) are within their caps. The new identifier is assumed to be
  -- fresh.
  pub admit-Admitted :
      (r : Request) (q q' : JobQueue) (a : AdmissionResult)
      → find r.new_id q.jobs ≡ none
      → admit_generation_job py dumps sha256 s r q ≡ returns (a, q')
      → Admitted s r q q' a
  unfolding admit_generation_job
  admit-Admitted r q q' a f h =
      resolved-Admitted (resolve_workflow r.workflow_name r.workflow_version) r q q' a f h
