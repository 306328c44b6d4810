-- ===== src/Admission/Examples.antt =====
-- The theorems on admission at concrete inputs.
use imagin.Queue.Store.Unique.{IsUnique}
use imagin.Queue.Counts.{
  queue_rank, find_by_idempotency_key, first, count_global_backlog, count_user_backlog,
}
use imagin.Admission.Replay.{hash, SameKey, admit_again, admit_unfold}
use imagin.Queue.Store.{find}
use imagin.Admission.{
  check_own_cap, admit_generation_job, AdmissionResult, Request, new_job, prepare_inputs,
  comfy_inputs, new_result, returns, admit_checked, admit_new, raises, idempotency_conflict,
  check_global_cap,
}
use imagin.Admission.Caps.{Admitted, admit-Admitted}
use imagin.Prelude.{none, some, refl, true, false, String, ◌≡◌, ◌∙◌, ◌≢◌, arith}
use imagin.Prelude.Json.{Json, Fields, object, string, end, field, get, put}
use imagin.Prelude.Python.{str}
use imagin.Config.Fixtures.{settings}
use imagin.Config.TallyMarks.{tally_marks}
use imagin.Jobs.Registry.{WorkflowDefinition, resolve_workflow}
use imagin.Queue.{JobQueue, enqueue}
use imagin.Queue.Fixtures.{four, queue}
use imagin.Admission.Position.{lane, admit_position, AllOlder}
use imagin.Jobs.Overrides.{
  validate_overrides, check_object, has_unknown, check_strings, check_string, build_allowlists, csv,
  check_steps, check_cfg_scale, check_negative_prompt,
}
use imagin.Prelude.Strip.{split, strip}
use imagin.Jobs.Profiles.{resolve_profile_key, profile_keys, build_profiles}

-- Stands for `json.dumps`, and `digest` for the hash.
abbrev dumps : Json → String
dumps (object end) = "{}"
dumps _ = "other"

abbrev digest : String → String
digest text = text

abbrev w : WorkflowDefinition
w = record {
  name = "image_basic";
  version = "v1";
  model_family = "sdxl";
  graph_template = object end;
  backend = "comfyui";
}

abbrev r : Request
r = record {
  user_id = 7;
  workflow_name = "image_basic";
  workflow_version = "v1";
  inputs = field "model_overrides" (object (field "sampler_name" (string " euler ") end)) end;
  idempotency_key = "other";
  conversation_id = none;
  new_id = 9;
  now = 100;
}

abbrev stored : Fields
stored = comfy_inputs settings false r.inputs "student" (field "sampler_name" (string "euler") end)

abbrev told : AdmissionResult
told = new_result settings w r queue

abbrev after : JobQueue
after = enqueue (new_job r stored) queue

fresh_id : find 9 four ≡ none
unfolding find
fresh_id = refl

resolved : resolve_workflow "image_basic" "v1" ≡ some w
unfolding resolve_workflow
resolved = refl

prepared : prepare_inputs tally_marks settings w r.inputs ≡ returns stored
unfolding prepare_inputs comfy_inputs resolve_profile_key profile_keys build_profiles
    validate_overrides check_object has_unknown check_strings check_string get build_allowlists csv
    split strip str check_steps check_cfg_scale check_negative_prompt put
prepared = refl

admitted : admit_generation_job tally_marks dumps digest settings r queue ≡ returns (told, after)
unfolding admit_checked admit_new find_by_idempotency_key first check_global_cap
    count_global_backlog check_own_cap count_user_backlog
admitted = admit_unfold tally_marks dumps digest settings w r stored queue resolved prepared ∙ refl

same_key : SameKey r r
same_key = record { user = refl; key = refl; name = refl; version = refl }

all_older : AllOlder (lane w) 100 four
all_older = (λ h. omega arith, (λ h. omega arith, (λ h. omega arith, (λ h. omega arith, tt))))

four-IsUnique : IsUnique four
unfolding find
four-IsUnique = (refl, (refl, (refl, (refl, tt))))

admit-Admitted_example : Admitted settings r queue after told
admit-Admitted_example =
    admit-Admitted tally_marks dumps digest settings r queue after told fresh_id admitted

admit_again_example :
    (hash tally_marks dumps digest settings stored ≡ hash tally_marks dumps digest settings stored
      → (b : AdmissionResult) × (admit_generation_job tally_marks dumps digest settings r after
          ≡ returns (b, after))
        × (b.id ≡ 9)
        × (b.replayed ≡ true))
    × (hash tally_marks dumps digest settings stored ≢ hash tally_marks dumps digest settings stored
        → admit_generation_job tally_marks dumps digest settings r after
          ≡ raises idempotency_conflict)
unfolding new_result
admit_again_example =
    admit_again tally_marks dumps digest settings w r r stored stored queue after told fresh_id
      resolved prepared admitted refl same_key prepared

admit_position_example : queue_rank 9 (lane w) after ≡ told.queue_position
unfolding new_result
admit_position_example =
    admit_position tally_marks dumps digest settings w r stored queue after told four-IsUnique
      fresh_id all_older resolved prepared admitted refl
