-- ===== src/Admission/Position.antt =====
-- The position that an admission reports, and the rank in the queue.
use imagin.Prelude.{
  suc, String, ◌≡◌, refl, ap, inl, inr, true, false, Option, none, some, List, [], ◌∷◌, ◌++◌, arith,
  Bool-cases, filter, count, All, length-filter, ℕ, ◌+◌, ◌≤◌, ◌<◌, sym, ◌∙◌, ==_refl, count-append,
  count-le_length,
}
use native.Mathlib.Nat.{le_trans}
use imagin.Prelude.Python.{Python}
use imagin.Admission.Replay.{fresh, admit_unfold, new_by_key}
use imagin.Prelude.Json.{Json, Fields}
use imagin.Config.{Settings}
use imagin.Jobs.Registry.{WorkflowDefinition, resolve_workflow, kinds_for_backend}
use imagin.Jobs.Registry.Kinds.{resolve_workflow_backend}
use imagin.Queue.{JobQueue, enqueue}
use imagin.Queue.Job.{QueuedJob}
use imagin.Queue.Store.{find, put}
use imagin.Queue.Store.Laws.{find-put}
use imagin.Queue.Store.Unique.{IsUnique, put-IsUnique}
use imagin.Queue.Order.{precedes}
use imagin.Queue.Order.Laws.{precedes_refl}
use imagin.Queue.Counts.{count_backlog_for_kinds, queue_rank}
use imagin.Queue.Counts.Rank.{ahead_of, not_after, waiting, queue_rank_bounds}
use imagin.Admission.{
  Request, returns, new_job, new_result, prepare_inputs, admit_generation_job, AdmissionResult,
}

abbrev pub lane : WorkflowDefinition → Option (List String)
lane w = some (kinds_for_backend w.backend)

-- Every job that waits in the lane was queued before the time.
abbrev pub AllOlder : Option (List String) → ℕ → List QueuedJob → Type 0
AllOlder kinds now = All (λ j. waiting kinds j ≡ true → j.queued_at < now)

put-fresh :
    (job : QueuedJob) (jobs : List QueuedJob)
    → find job.id jobs ≡ none
    → put job jobs ≡ jobs ++ job ∷ []
unfolding put find
put-fresh job [] f = refl
put-fresh job (x ∷ xs) f = ground (arith, put-fresh job xs)

older-ahead :
    (r : Request) (inputs : Fields) (j : QueuedJob)
    → j.queued_at < r.now
    → ahead_of (new_job r inputs) j ≡ true
unfolding precedes new_job
older-ahead r inputs j h = ground arith

count_self :
    (kinds : Option (List String)) (job : QueuedJob)
    → count (ahead_of job) (filter (waiting kinds) (job ∷ [])) ≡ 0
count_self kinds job = elim (Bool-cases (waiting kinds job)) [
  | inl e ↦ rw e (rw (precedes_refl job) refl)
  | inr e ↦ rw e
]

count-ahead :
    (kinds : Option (List String)) (r : Request) (inputs : Fields) (l : List QueuedJob)
    → AllOlder kinds r.now l
    → count (ahead_of (new_job r inputs)) (filter (waiting kinds) (l ++ new_job r inputs ∷ []))
      ≡ count (waiting kinds) l
count-ahead kinds r inputs [] h = count_self kinds (new_job r inputs)
count-ahead kinds r inputs (x ∷ xs) h = elim (Bool-cases (waiting kinds x)) [
  | inl e ↦ rw e (rw (older-ahead r inputs x (h.0 e)) (ap suc (count-ahead kinds r inputs xs h.1)))
  | inr e ↦ rw e (count-ahead kinds r inputs xs h.1)
]

room :
    (kinds : Option (List String)) (job : QueuedJob) (l : List QueuedJob)
    → count (not_after job) (filter (waiting kinds) (l ++ job ∷ [])) ≤ count (waiting kinds) l + 1
room kinds job l = omega (
  arith,
  count-le_length (not_after job) (filter (waiting kinds) (l ++ job ∷ [])),
  length-filter (waiting kinds) (l ++ job ∷ []),
  count-append (waiting kinds) l (job ∷ []),
  count-le_length (waiting kinds) (job ∷ []),
)

new-waiting :
    (r : Request) (inputs : Fields) (w : WorkflowDefinition)
    → resolve_workflow r.workflow_name r.workflow_version ≡ some w
    → waiting (lane w) (new_job r inputs) ≡ true
unfolding new_job
new-waiting r inputs w e = (resolve_workflow_backend r.workflow_name r.workflow_version w e).2

new-found :
    (r : Request) (inputs : Fields) (q : JobQueue)
    → find r.new_id (enqueue (new_job r inputs) q).jobs ≡ some (new_job r inputs)
unfolding enqueue new_job
new-found r inputs q = find-put r.new_id (new_job r inputs) q.jobs ∙ rw (==_refl r.new_id) refl

rank_of_new :
    (r : Request) (inputs : Fields) (w : WorkflowDefinition) (q : JobQueue)
    → IsUnique q.jobs
    → find r.new_id q.jobs ≡ none
    → AllOlder (lane w) r.now q.jobs
    → resolve_workflow r.workflow_name r.workflow_version ≡ some w
    → queue_rank r.new_id (lane w) (enqueue (new_job r inputs) q)
      ≡ some (count_backlog_for_kinds (lane w) q)
unfolding enqueue count_backlog_for_kinds
rank_of_new r inputs w q u f older e =
    let job = new_job r inputs in
    let q2 = enqueue job q in
    let (n, is, low, high) =
      queue_rank_bounds r.new_id (lane w) q2 job (put-IsUnique job q.jobs u) (new-found r inputs q)
        (new-waiting r inputs w e) in
    let shape : put job q.jobs ≡ q.jobs ++ job ∷ [] = put-fresh job q.jobs (fresh r inputs q f) in
    let low2 : count (waiting (lane w)) q.jobs ≤ n =
      rw (← count-ahead (lane w) r inputs q.jobs older) (rw (← shape) low) in
    let high2 : n + 1 ≤ count (waiting (lane w)) q.jobs + 1 =
      le_trans (rw shape at high) (room (lane w) job q.jobs) in
    is ∙ ap some (omega arith)

module _ (py : Python) (dumps : Json → String) (sha256 : String → String) (s : Settings) where
  -- Where every job that waits in the lane was queued earlier, no two jobs share an identifier and
  -- the new identifier is fresh, the position that a well-formed new request is told is the rank
  -- that the queue then gives its job in the lane of its backend.
  pub admit_position :
      (w : WorkflowDefinition) (r : Request) (inputs : Fields) (q q' : JobQueue)
      (a : AdmissionResult)
      → IsUnique q.jobs
      → find r.new_id q.jobs ≡ none
      → AllOlder (lane w) r.now q.jobs
      → resolve_workflow r.workflow_name r.workflow_version ≡ some w
      → prepare_inputs py s w r.inputs ≡ returns inputs
      → admit_generation_job py dumps sha256 s r q ≡ returns (a, q')
      → a.replayed ≡ false
      → queue_rank r.new_id (lane w) q' ≡ a.queue_position
  unfolding new_result
  admit_position w r inputs q q' a u f older e p h n =
      let (_, after, answer) =
        new_by_key py dumps sha256 s w r inputs _ q q' a
          (sym (admit_unfold py dumps sha256 s w r inputs q e p) ∙ h) n in
      rw (after, answer) (rank_of_new r inputs w q u f older e)
