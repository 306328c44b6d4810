-- ===== src/Services/Scheduler/Dispatch.antt =====
-- The dispatch of a claimed job: its start, and the answer of the backend.
use imagin.Prelude.{
  ℕ, ◌+◌, ◌≤◌, String, ◌≡◌, refl, ◌∙◌, inl, inr, false, Option, none, some, List, [], ◌∷◌, length,
  arith, ==_refl,
}
use imagin.Queue.Store.Unique.{IsUnique, update-IsUnique}
use imagin.Queue.Claim.{to_dispatched, claim_next}
use imagin.Queue.Claim.Loop.{claim_next-IsUnique}
use imagin.Queue.Claim.Frame.{claim_next-change}
use imagin.Jobs.StateMachine.{running, retry_wait}
use Prim.Native.String.{◌++◌ as concat}
use imagin.Jobs.Retry.{is_retryable}
use imagin.Queue.{JobQueue}
use imagin.Queue.Job.{QueuedJob}
use imagin.Queue.Store.{find}
use imagin.Queue.Store.Laws.{find-update}
use imagin.Queue.Marks.{
  to_running, to_retry_wait, with_prompt, mark_running, mark_retry_wait, set_prompt_id,
}
use imagin.Comfy.{Submitted, accepted, raised}
use imagin.Services.Scheduler.{dispatch_start, dispatch_end}

abbrev pub dispatch : ℕ → ℕ → ℕ → Submitted → JobQueue → JobQueue
dispatch now draw id answer q = dispatch_end now draw id answer (dispatch_start id q)

start_found :
    (id : ℕ) (q : JobQueue) (j : QueuedJob)
    → find id q.jobs ≡ some j
    → find id (dispatch_start id q).jobs ≡ some (to_running j)
unfolding dispatch_start mark_running
start_found id q j h = find-update id id to_running q.jobs (λ x. refl) ∙ rw (==_refl id, h) refl

-- A dispatch of a job of the queue that is accepted leaves the job running under the prompt that
-- the backend gave.
pub dispatch_accepted :
    (now draw id : ℕ) (prompt : String) (q : JobQueue) (j : QueuedJob)
    → find id q.jobs ≡ some j
    → find id (dispatch now draw id (accepted prompt) q).jobs
      ≡ some (record j { state = running; prompt_id = some prompt })
unfolding dispatch_end set_prompt_id
dispatch_accepted now draw id prompt q j h =
    find-update id id (with_prompt prompt) (dispatch_start id q).jobs (λ x. refl)
    ∙ rw (==_refl id, start_found id q j h) refl

-- A claim by some parameters, and then a dispatch that fails.
pub record Round : Type 0 where
  pub now : ℕ
  pub room : ℕ
  pub kinds : Option (List String)
  pub max_active_per_user : ℕ
  pub draw : ℕ
  pub name : String

abbrev claimed : Round → JobQueue → JobQueue
claimed r q = record q {
  jobs = (claim_next r.now r.room r.kinds r.max_active_per_user q.jobs).jobs;
}

abbrev pub round : ℕ → Round → JobQueue → JobQueue
round id r q = dispatch r.now r.draw id (raised r.name) (claimed r q)

abbrev pub rounds : ℕ → List Round → JobQueue → JobQueue
rounds id [] q = q
rounds id (r ∷ rs) q = rounds id rs (round id r q)

-- `n` attempts more than `j` has, up to the same maximum.
abbrev Counted : ℕ → QueuedJob → QueuedJob → Type 0
Counted n j k = (k.current_attempt ≡ j.current_attempt + n) × (k.max_attempts ≡ j.max_attempts)

claimed-Counted :
    (r : Round) (id : ℕ) (q : JobQueue) (j : QueuedJob)
    → IsUnique q.jobs
    → find id q.jobs ≡ some j
    → (k : QueuedJob) × (find id (claimed r q).jobs ≡ some k) × Counted 0 j k
claimed-Counted r id q j u h =
    elim (claim_next-change r.now r.room r.kinds r.max_active_per_user q.jobs id u) [
      | inl e ↦ (j, e ∙ h, (omega arith, refl))
      | inr (x, at, c, e) ↦
          let same : x ≡ j = cc in (to_dispatched x, e, (rw same (omega arith), rw same refl))
    ]

round-Counted :
    (r : Round) (id : ℕ) (q : JobQueue) (j : QueuedJob)
    → IsUnique q.jobs
    → find id q.jobs ≡ some j
    → (k : QueuedJob) × (find id (round id r q).jobs ≡ some k)
      × (k.state ≡ retry_wait)
      × Counted 1 j k
unfolding dispatch_end mark_retry_wait
round-Counted r id q j u h =
    let (x, at, (n, m)) = claimed-Counted r id q j u h in
    let f =
      to_retry_wait r.now "worker_unreachable" (some (concat "dispatch_error:" r.name)) none
        r.draw in
    (
      f (to_running x),
      find-update id id f (dispatch_start id (claimed r q)).jobs (λ y. ground arith)
          ∙ rw (==_refl id, start_found id (claimed r q) x at) refl,
      refl,
      (omega (arith, n), m),
    )

round-IsUnique :
    (r : Round) (id : ℕ) (q : JobQueue) → IsUnique q.jobs → IsUnique (round id r q).jobs
unfolding dispatch_end dispatch_start mark_running mark_retry_wait
round-IsUnique r id q u =
    let f =
      to_retry_wait r.now "worker_unreachable" (some (concat "dispatch_error:" r.name)) none
        r.draw in
    update-IsUnique id f _ (λ y. ground arith)
      (update-IsUnique id to_running _ (λ y. refl)
        (claim_next-IsUnique r.now r.room r.kinds r.max_active_per_user q.jobs u))

-- Where no two jobs share an identifier: after any number of rounds of a claim and a failed dispatch of
-- a job of the queue, one at least, the job waits for another attempt and each round has been counted,
-- whatever the maximum of its attempts; once that maximum is reached the error that is recorded is no
-- longer retryable, and the job waits all the same.
pub dispatch_raised_ignores_max :
    (id : ℕ) (r : Round) (rs : List Round) (q : JobQueue) (j : QueuedJob)
    → IsUnique q.jobs
    → find id q.jobs ≡ some j
    → (after : QueuedJob) × (find id (rounds id (r ∷ rs) q).jobs ≡ some after)
      × (after.state ≡ retry_wait)
      × (after.current_attempt ≡ j.current_attempt + length (r ∷ rs))
      × (j.max_attempts ≤ j.current_attempt + length (r ∷ rs)
          → is_retryable "worker_unreachable" after.current_attempt after.max_attempts ≡ false)
unfolding is_retryable
dispatch_raised_ignores_max id r [] q j u h =
    let (x, at, s, (n, m)) = round-Counted r id q j u h in
    (x, at, s, omega (arith, n), λ l. ground (arith, n, m))
dispatch_raised_ignores_max id r (r' ∷ rs) q j u h =
    let (x, at, s, (n, m)) = round-Counted r id q j u h in
    let (y, at', s', n', over) =
      dispatch_raised_ignores_max id r' rs (round id r q) x (round-IsUnique r id q u) at in
    (y, at', s', omega (arith, n, n'), λ l. over (omega (arith, n, m, l)))
