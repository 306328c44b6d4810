-- ===== src/Admission/Replay.antt =====
-- A repeated request, and the idempotency check.
use imagin.Prelude.{
  String, ◌≡◌, refl, ◌≢◌, Bool, true, false, Option, none, some, List, [], ◌∷◌, arith, ==_refl, sym,
  ap, ◌∙◌, str_eq, eq_iff,
}
use imagin.Prelude.Json.{Json, Fields, object}
use imagin.Prelude.Python.{Python}
use imagin.Config.{Settings}
use imagin.Jobs.Registry.{WorkflowDefinition, resolve_workflow}
use imagin.Jobs.Idempotency.{canonical_payload_hash, check_idempotency}
use imagin.Queue.{JobQueue, enqueue}
use imagin.Queue.Job.{QueuedJob}
use imagin.Queue.Store.{find, put}
use imagin.Queue.Counts.{has_key, first, find_by_idempotency_key}
use imagin.Admission.{
  AdmissionResult, Request, returns, raises, idempotency_conflict, prepare_inputs, new_job,
  new_result, replay_result, admit_new, admit_checked, admit_generation_job, check_global_cap,
  check_own_cap,
}
use text.Mathlib.TextPositions.{eq_refl}

first-put :
    (p : QueuedJob → Bool) (job : QueuedJob) (l : List QueuedJob)
    → find job.id l ≡ none
    → first p l ≡ none
    → p job ≡ true
    → first p (put job l) ≡ some job
unfolding first put find
first-put p job [] f h t = rw t
first-put p job (x ∷ xs) f h t = ground (arith, first-put p job xs)

-- The two requests name one user, workflow and idempotency key.
pub record SameKey (r r2 : Request) : Type 0 where
  pub user : r2.user_id ≡ r.user_id
  pub key : r2.idempotency_key ≡ r.idempotency_key
  pub name : r2.workflow_name ≡ r.workflow_name
  pub version : r2.workflow_version ≡ r.workflow_version

has_key-new_job :
    (r : Request) (inputs : Fields)
    → has_key r.user_id r.idempotency_key r.workflow_name (new_job r inputs) ≡ true
unfolding new_job
has_key-new_job r inputs =
    rw (==_refl r.user_id, eq_refl r.idempotency_key, eq_refl r.workflow_name)

pub fresh :
    (r : Request) (inputs : Fields) (q : JobQueue)
    → find r.new_id q.jobs ≡ none
    → find (new_job r inputs).id q.jobs ≡ none
unfolding new_job
fresh r inputs q f = f

module _ (py : Python) (dumps : Json → String) (sha256 : String → String) (s : Settings) where
  abbrev pub hash : Fields → String
  hash inputs = canonical_payload_hash dumps sha256 (object inputs)

  pub admit_unfold :
      (w : WorkflowDefinition) (r : Request) (inputs : Fields) (q : JobQueue)
      → resolve_workflow r.workflow_name r.workflow_version ≡ some w
      → prepare_inputs py s w r.inputs ≡ returns inputs
      → admit_generation_job py dumps sha256 s r q
        ≡ admit_checked py dumps sha256 s w r inputs
            (find_by_idempotency_key r.user_id r.idempotency_key r.workflow_name q)
            q
  unfolding admit_generation_job
  admit_unfold w r inputs q e p = rw (e, p)

  pub new_by_key :
      (w : WorkflowDefinition) (r : Request) (inputs : Fields) (o : Option QueuedJob)
      (q q' : JobQueue) (a : AdmissionResult)
      → admit_checked py dumps sha256 s w r inputs o q ≡ returns (a, q')
      → a.replayed ≡ false
      → (o ≡ none) × (q' ≡ enqueue (new_job r inputs) q) × (a ≡ new_result s w r q)
  unfolding admit_checked check_idempotency replay_result admit_new check_global_cap check_own_cap
  new_by_key w r inputs none q q' a h n = (refl, ground arith, ground arith)
  new_by_key w r inputs (some j) q q' a h n = absurd (ground arith)

  same_payload :
      (w : WorkflowDefinition) (r r2 : Request) (inputs inputs2 : Fields) (q : JobQueue)
      → hash inputs2 ≡ hash inputs
      → admit_checked py dumps sha256 s w r2 inputs2 (some (new_job r inputs)) q
        ≡ returns (replay_result (new_job r inputs), q)
  unfolding admit_checked check_idempotency new_job
  same_payload w r r2 inputs inputs2 q e =
      let t : str_eq (hash inputs2) (hash inputs) ≡ true = rw e (eq_refl (hash inputs)) in
      rw (t, admit_checked)

  other_payload :
      (w : WorkflowDefinition) (r r2 : Request) (inputs inputs2 : Fields) (q : JobQueue)
      → hash inputs2 ≢ hash inputs
      → admit_checked py dumps sha256 s w r2 inputs2 (some (new_job r inputs)) q
        ≡ raises idempotency_conflict
  unfolding admit_checked check_idempotency new_job
  other_payload w r r2 inputs inputs2 q n =
      let d : str_eq (hash inputs2) (hash inputs) ≡ false =
        ground (arith, eq_iff (hash inputs2) (hash inputs)) in
      rw (d, admit_checked)

  found_again :
      (r r2 : Request) (inputs : Fields) (q : JobQueue)
      → find r.new_id q.jobs ≡ none
      → find_by_idempotency_key r.user_id r.idempotency_key r.workflow_name q ≡ none
      → SameKey r r2
      → find_by_idempotency_key r2.user_id r2.idempotency_key r2.workflow_name
          (enqueue (new_job r inputs) q)
        ≡ some (new_job r inputs)
  unfolding find_by_idempotency_key enqueue
  found_again r r2 inputs q f o k =
      rw (k.user, k.key, k.name)
        (first-put (has_key r.user_id r.idempotency_key r.workflow_name) (new_job r inputs) q.jobs
          (fresh r inputs q f) o (has_key-new_job r inputs))

  replayed_new :
      (r : Request) (inputs : Fields)
      → ((replay_result (new_job r inputs)).id ≡ r.new_id)
        × ((replay_result (new_job r inputs)).replayed ≡ true)
  unfolding replay_result new_job
  replayed_new r inputs = (refl, refl)

  -- After a request has put a new job under a fresh identifier into the queue, a request of the
  -- same user for the same workflow and key that is well formed is answered from that job: with the
  -- job itself, as a replay that leaves the queue alone, where the hash of its payload is the same,
  -- and with a conflict where it is not.
  pub admit_again :
      (w : WorkflowDefinition) (r r2 : Request) (inputs inputs2 : Fields) (q q' : JobQueue)
      (a : AdmissionResult)
      → find r.new_id q.jobs ≡ none
      → resolve_workflow r.workflow_name r.workflow_version ≡ some w
      → prepare_inputs py s w r.inputs ≡ returns inputs
      → admit_generation_job py dumps sha256 s r q ≡ returns (a, q')
      → a.replayed ≡ false
      → SameKey r r2
      → prepare_inputs py s w r2.inputs ≡ returns inputs2
      → (hash inputs2 ≡ hash inputs
          → (b : AdmissionResult) × (admit_generation_job py dumps sha256 s r2 q' ≡ returns (b, q'))
            × (b.id ≡ r.new_id)
            × (b.replayed ≡ true))
        × (hash inputs2 ≢ hash inputs
            → admit_generation_job py dumps sha256 s r2 q' ≡ raises idempotency_conflict)
  admit_again w r r2 inputs inputs2 q q' a f e p h n k p2 =
      let (o, after, _) =
        new_by_key w r inputs _ q q' a (sym (admit_unfold w r inputs q e p) ∙ h) n in
      let again : find_by_idempotency_key r2.user_id r2.idempotency_key r2.workflow_name q'
          ≡ some (new_job r inputs) =
        rw after (found_again r r2 inputs q f o k) in
      let step : admit_generation_job py dumps sha256 s r2 q'
          ≡ admit_checked py dumps sha256 s w r2 inputs2 (some (new_job r inputs)) q' =
        admit_unfold w r2 inputs2 q' (rw (k.name, k.version) e) p2
        ∙ ap (λ o. admit_checked py dumps sha256 s w r2 inputs2 o q') again in
      (
        λ same. (
          replay_result (new_job r inputs),
          step ∙ same_payload w r r2 inputs inputs2 q' same,
          (replayed_new r inputs).0,
          (replayed_new r inputs).1,
        ),
        λ other. step ∙ other_payload w r r2 inputs inputs2 q' other,
      )
