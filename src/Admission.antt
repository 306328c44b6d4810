-- ===== src/Admission.antt =====
-- backend/app/domain/jobs/admission.py: the one way of a request into the queue.
pub mod Caps
pub mod Replay
pub mod Position
mod Examples
use imagin.Prelude.{
  ℕ, ◌*◌, ◌/◌, String, Bool, true, false, not, ◌&&◌, ◌||◌, Option, none, some, str_eq, ltb, leb,
  if◌then◌else◌,
}
use imagin.Prelude.Json.{Json, Fields, integer, boolean, string, object, get, put, truthy_at}
use imagin.Prelude.Python.{Python}
use imagin.Config.{Settings}
use imagin.Jobs.StateMachine.{State, queued}
use imagin.Jobs.Registry.{WorkflowDefinition, resolve_workflow, kinds_for_backend}
use imagin.Jobs.Profiles.{
  ProfileKey, key_is, unknown, no_text, build_profiles, profile_keys, resolve_profile_key,
}
use imagin.Jobs.Overrides.{
  OverrideError, Validation, valid, invalid, build_allowlists, validate_overrides,
}
use imagin.Jobs.Idempotency.{new, replay, conflict, canonical_payload_hash, check_idempotency}
use imagin.Queue.{JobQueue, enqueue}
use imagin.Queue.Job.{QueuedJob}
use imagin.Queue.Counts.{
  find_by_idempotency_key, count_global_backlog, count_conversation_backlog, count_user_backlog,
  count_backlog_for_kinds,
}

unfoldable pub capacity_for_backend : String → Settings → ℕ
capacity_for_backend backend s =
    if str_eq backend "comfyui" then s.default_comfy_active_slots else s.default_gemini_active_slots

unfoldable pub estimate_wait : ℕ → String → Settings → Option ℕ
estimate_wait position backend s =
    let capacity = capacity_for_backend backend s in
    if leb capacity 0 then none else some (position / capacity * s.estimated_job_duration)

pub data AdmissionError : Type 0 where
  unknown_workflow unknown_model_profile preview_not_supported idempotency_conflict : AdmissionError
  invalid_override : OverrideError → AdmissionError
  -- with `retry_after_s`
  capacity_exceeded : ℕ → AdmissionError
  -- `AttributeError`, for a model profile that is no text
  attribute_error : AdmissionError

-- How a call ends: with an exception, or with what it returns.
pub data Answer {ℓ} (A : Type ℓ) : Type ℓ where
  raises : AdmissionError → Answer A
  returns : A → Answer A

infixl 5 ◌>>=◌ ◌>>◌
abbrev pub ◌>>=◌ {ℓ κ} : {A : Type ℓ} {B : Type κ} → Answer A → (A → Answer B) → Answer B
raises error >>= next = raises error
returns x >>= next = next x

abbrev pub ◌>>◌ {κ} : {B : Type κ} → Answer (Unit {0}) → Answer B → Answer B
raises error >> next = raises error
returns tt >> next = next

pub record AdmissionResult : Type 0 where
  pub id : ℕ
  pub state : State
  pub kind : String
  pub replayed : Bool
  pub queue_position : Option ℕ
  pub estimated_wait : Option ℕ
  pub is_preview : Bool

-- A call of `admit_generation_job`. The new identifier is the one that `uuid.uuid4()` gives, and
-- `now` the time that the clock shows.
pub record Request : Type 0 where
  pub user_id : ℕ
  pub workflow_name : String
  pub workflow_version : String
  pub inputs : Fields
  pub idempotency_key : String
  pub conversation_id : Option ℕ
  pub new_id : ℕ
  pub now : ℕ

abbrev or_unknown : Option WorkflowDefinition → Answer WorkflowDefinition
or_unknown none = raises unknown_workflow
or_unknown (some w) = returns w

abbrev profile_or_error : ProfileKey → Answer String
profile_or_error (key_is k) = returns k
profile_or_error (unknown k) = raises unknown_model_profile
profile_or_error no_text = raises attribute_error

abbrev overrides_or_error : Validation → Answer Fields
overrides_or_error (valid d) = returns d
overrides_or_error (invalid e) = raises (invalid_override e)

abbrev require : Bool → AdmissionError → Answer (Unit {0})
require true e = returns tt
require false e = raises e

-- The payload of a ComfyUI job, with its resolved profile and overrides.
unfoldable pub comfy_inputs : Settings → Bool → Fields → String → Fields → Fields
comfy_inputs s is_preview inputs key validated =
    let final_overrides =
      if is_preview then put "steps" (integer s.preview_steps) validated else validated in
    let filled =
      put "is_preview" (boolean is_preview) (
        put "model_overrides" (object final_overrides) (put "model_profile" (string key) inputs)) in
    if is_preview then put "preview_original_overrides" (object validated) filled else filled

-- The first part of the function, up to the payload that is stored.
unfoldable pub prepare_inputs : Python → Settings → WorkflowDefinition → Fields → Answer Fields
prepare_inputs py s w inputs =
    let is_preview = truthy_at (get "preview" inputs) in
    if str_eq w.backend "comfyui"
    then (do
      key ←
          profile_or_error
            (resolve_profile_key (get "model_profile" inputs) (profile_keys (build_profiles s)))
      validated ←
          overrides_or_error
            (validate_overrides py (get "model_overrides" inputs) (build_allowlists s))
      require (not is_preview || s.preview_enabled) preview_not_supported
      returns (comfy_inputs s is_preview inputs key validated))
    else if is_preview
    then raises preview_not_supported
    else returns inputs

-- The two caps on jobs that wait; a cap of 0 is none.
unfoldable pub check_global_cap : Settings → JobQueue → Answer (Unit {0})
check_global_cap s q =
    if ltb 0 s.global_queue_cap && leb s.global_queue_cap (count_global_backlog q)
    then raises (capacity_exceeded 30)
    else returns tt

abbrev pub own_backlog : Request → JobQueue → ℕ
own_backlog r q = elim r.conversation_id [
  | none ↦ count_user_backlog r.user_id q
  | some c ↦ count_conversation_backlog c q
]

unfoldable pub check_own_cap : Settings → Request → JobQueue → Answer (Unit {0})
check_own_cap s r q =
    if ltb 0 s.max_queued_jobs_per_user && leb s.max_queued_jobs_per_user (own_backlog r q)
    then raises (capacity_exceeded 15)
    else returns tt

-- The fields that `QueuedJob` gets by default, and those that the request decides.
unfoldable pub new_job : Request → Fields → QueuedJob
new_job r inputs = record {
  id = r.new_id;
  user_id = r.user_id;
  kind = r.workflow_name;
  state = queued;
  priority = 0;
  effective_priority = 0;
  input_payload = object inputs;
  idempotency_key = r.idempotency_key;
  queued_at = r.now;
  current_attempt = 0;
  max_attempts = 3;
  assigned_worker_id = none;
  error_code = none;
  error_detail = none;
  result = none;
  lease_owner = none;
  lease_expires_at = none;
  prompt_id = none;
  conversation_id = r.conversation_id;
  available_at = none;
}

-- `(existing.input_payload or {}).get("is_preview", False)`
abbrev payload_preview : Json → Bool
payload_preview (object d) = truthy_at (get "is_preview" d)
payload_preview _ = false

unfoldable pub replay_result : QueuedJob → AdmissionResult
replay_result j = record {
  id = j.id;
  state = j.state;
  kind = j.kind;
  replayed = true;
  queue_position = none;
  estimated_wait = none;
  is_preview = payload_preview j.input_payload;
}

unfoldable pub new_result : Settings → WorkflowDefinition → Request → JobQueue → AdmissionResult
new_result s w r q =
    let position = count_backlog_for_kinds (some (kinds_for_backend w.backend)) q in
    record {
      id = r.new_id;
      state = queued;
      kind = r.workflow_name;
      replayed = false;
      queue_position = some position;
      estimated_wait = estimate_wait position w.backend s;
      is_preview = truthy_at (get "preview" r.inputs);
    }

-- From the caps on: the answer, and the queue with the new job.
unfoldable pub admit_new :
    Settings
    → WorkflowDefinition
    → Request
    → Fields
    → JobQueue
    → Answer (AdmissionResult × JobQueue)
admit_new s w r inputs q = do
  check_global_cap s q
  check_own_cap s r q
  returns (new_result s w r q, enqueue (new_job r inputs) q)

module _ (py : Python) (dumps : Json → String) (sha256 : String → String) (s : Settings) where
  -- The idempotency check against the job that has the key, if there is one.
  unfoldable pub admit_checked :
      WorkflowDefinition
      → Request
      → Fields
      → Option QueuedJob
      → JobQueue
      → Answer (AdmissionResult × JobQueue)
  admit_checked w r inputs none q = admit_new s w r inputs q
  admit_checked w r inputs (some existing) q =
      elim (check_idempotency dumps sha256 (some existing.id)
        (some (canonical_payload_hash dumps sha256 existing.input_payload))
        (object inputs)).outcome [
          | conflict ↦ raises idempotency_conflict
          | replay ↦ returns (replay_result existing, q)
          | new ↦ admit_new s w r inputs q
        ]

  unfoldable pub admit_generation_job : Request → JobQueue → Answer (AdmissionResult × JobQueue)
  admit_generation_job r q = do
    w ← or_unknown (resolve_workflow r.workflow_name r.workflow_version)
    inputs ← prepare_inputs py s w r.inputs
    admit_checked w r inputs (find_by_idempotency_key r.user_id r.idempotency_key r.workflow_name q)
        q
