-- ===== src/Jobs/Overrides/Apply.antt =====
-- `apply_overrides` of backend/app/domain/jobs/comfy_overrides.py. `none` stands for an exception,
-- and for a value of a type that the validation never gives to the field.
pub mod Floor
use imagin.Prelude.{String, not, ◌&&◌, Option, none, some, str_eq, if◌then◌else◌}
use imagin.Prelude.Parts.{join}
use imagin.Prelude.Strip.{strip}
use imagin.Prelude.Json.{Json, Fields, string, integer, float, end, field, get}
use imagin.Jobs.Profiles.{ComfyProfile}

-- One keyword argument of `replace(profile, **overrides)`.
unfoldable pub set_text : String → String → ComfyProfile → Option ComfyProfile
set_text key v p =
    if str_eq key "checkpoint_name"
    then some (record p { checkpoint_name = v })
    else if str_eq key "diffusion_model_name"
    then some (record p { diffusion_model_name = v })
    else if str_eq key "clip_name"
    then some (record p { clip_name = v })
    else if str_eq key "vae_name"
    then some (record p { vae_name = v })
    else if str_eq key "sampler_name"
    then some (record p { sampler_name = v })
    else if str_eq key "scheduler"
    then some (record p { scheduler = v })
    else if str_eq key "negative_prompt"
    then some (record p { negative_prompt = v })
    else none

unfoldable pub set_field : String → Json → ComfyProfile → Option ComfyProfile
unfolding set_text
set_field key (string v) p = set_text key v p
set_field key (integer n) p = if str_eq key "steps" then some (record p { steps = n }) else none
set_field key (float r) p =
    if str_eq key "cfg_scale" then some (record p { cfg_scale = r }) else none
set_field key _ p = none

abbrev pub and_then :
    Option ComfyProfile → (ComfyProfile → Option ComfyProfile) → Option ComfyProfile
and_then none f = none
and_then (some p) f = f p

unfoldable pub replace_fields : Fields → ComfyProfile → Option ComfyProfile
unfolding set_field
replace_fields end p = some p
replace_fields (field k v rest) p = and_then (set_field k v p) (replace_fields rest)

-- `overrides.pop(key)`, which leaves the other entries.
unfoldable pub pop : String → Fields → Fields
pop key end = end
pop key (field k v rest) = if str_eq k key then pop key rest else field k v (pop key rest)

-- `overrides[key] = v` for a key that is not there.
unfoldable pub add_last : String → Json → Fields → Fields
add_last key v end = field key v end
add_last key v (field k w rest) = field k w (add_last key v rest)

-- The configured terms and the caller's, both stripped.
unfoldable pub merge_terms : String → String → String
merge_terms baseline caller =
    if not (str_eq caller "") && not (str_eq baseline "")
    then join baseline (join ", " caller)
    else if not (str_eq caller "")
    then caller
    else baseline

abbrev pub apply_at : Option Json → ComfyProfile → Fields → Option ComfyProfile
apply_at none p d = replace_fields d p
apply_at (some (string s)) p d =
    replace_fields
      (add_last "negative_prompt" (string (merge_terms (strip p.negative_prompt) (strip s)))
        (pop "negative_prompt" d))
      p
apply_at (some _) p d = none

unfoldable pub apply_overrides : ComfyProfile → Fields → Option ComfyProfile
apply_overrides p d = apply_at (get "negative_prompt" d) p d
