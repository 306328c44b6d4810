-- ===== src/Jobs/Overrides.antt =====
-- backend/app/domain/jobs/comfy_overrides.py: the check of `model_overrides` against the allowlists,
-- and the profile with the overrides applied.
pub mod Checked
pub mod Apply
mod Examples
use imagin.Prelude.{
  ℕ, zero, suc, String, Bool, true, false, not, ◌||◌, Option, List, [], ◌∷◌, map, str_eq, filter,
  contains, ◌&&◌, none, some, if◌then◌else◌,
}
use imagin.Prelude.Int.{ℤ, leb_ℤ}
use imagin.Prelude.Strip.{strip, split}
use imagin.Prelude.Json
use imagin.Prelude.Json.{Json, Fields, null, integer, float, string, object, end, field, get, put}
use imagin.Prelude.Python.{Python, value, refused, overflow, str, int_of, float_of}
use imagin.Config.{Settings}

pub record OverrideAllowlists : Type 0 where
  pub checkpoints : List String
  pub diffusion_models : List String
  pub clips : List String
  pub vaes : List String
  pub samplers : List String
  pub schedulers : List String
  pub min_steps : ℤ
  pub max_steps : ℤ
  pub min_cfg_scale : String
  pub max_cfg_scale : String
  pub max_negative_prompt_chars : ℕ

-- `frozenset(v.strip() for v in value.split(",") if v.strip())`
unfoldable pub csv : String → List String
csv text = filter (λ v. not (str_eq v "")) (map strip (split text))

unfoldable pub build_allowlists : Settings → OverrideAllowlists
build_allowlists s = record {
  checkpoints = csv s.allowed_checkpoints_csv;
  diffusion_models = csv s.allowed_diffusion_models_csv;
  clips = csv s.allowed_clips_csv;
  vaes = csv s.allowed_vaes_csv;
  samplers = csv s.allowed_samplers_csv;
  schedulers = csv s.allowed_schedulers_csv;
  min_steps = s.override_min_steps;
  max_steps = s.override_max_steps;
  min_cfg_scale = s.override_min_cfg_scale;
  max_cfg_scale = s.override_max_cfg_scale;
  max_negative_prompt_chars = s.override_max_negative_prompt_chars;
}

abbrev pub string_fields : OverrideAllowlists → List (String × List String)
string_fields a =
    ("checkpoint_name", a.checkpoints)
    ∷ ("diffusion_model_name", a.diffusion_models)
    ∷ ("clip_name", a.clips)
    ∷ ("vae_name", a.vaes)
    ∷ ("sampler_name", a.samplers)
    ∷ ("scheduler", a.schedulers)
    ∷ []

abbrev pub all_override_keys : List String
all_override_keys =
    "checkpoint_name" ∷ "diffusion_model_name" ∷ "clip_name" ∷ "vae_name" ∷ "sampler_name"
    ∷ "scheduler" ∷ "steps" ∷ "cfg_scale" ∷ "negative_prompt" ∷ []

pub data OverrideError : Type 0 where
  not_an_object unknown_keys not_enabled not_allowed : OverrideError
  -- `OverflowError`, which the code does not catch
  overflow_error : OverrideError

pub data Validation : Type 0 where
  valid : Fields → Validation
  invalid : OverrideError → Validation

infixl 5 ◌>>=◌
abbrev pub ◌>>=◌ : Validation → (Fields → Validation) → Validation
valid v >>= f = f v
invalid e >>= f = invalid e

-- `set(overrides) - ALL_OVERRIDE_KEYS` is not empty.
unfoldable pub has_unknown : Fields → Bool
has_unknown end = false
has_unknown (field k v rest) = not (contains k all_override_keys) || has_unknown rest

unfoldable pub take_chars : ℕ → String → String
take_chars zero s = ""
take_chars (suc n) Prim.Native.String.[] = ""
take_chars (suc n) (Prim.Native.String.◌∷◌ c s) = Prim.Native.String.◌∷◌ c (take_chars n s)

abbrev is_empty : List String → Bool
is_empty [] = true
is_empty (_ ∷ _) = false

module _ (py : Python) where
  -- One round of the loop over the fields with an allowlist.
  unfoldable pub check_string : String → List String → Option Json → Fields → Validation
  check_string key allowlist none validated = valid validated
  check_string key allowlist (some x) validated =
      let text = strip (str py x) in
      if is_empty allowlist
      then invalid not_enabled
      else if not (contains text allowlist)
      then invalid not_allowed
      else valid (put key (string text) validated)

  unfoldable pub check_strings : List (String × List String) → Fields → Fields → Validation
  unfolding check_string
  check_strings [] overrides validated = valid validated
  check_strings ((key, allowlist) ∷ rest) overrides validated =
      check_string key allowlist (get key overrides) validated >>= check_strings rest overrides

  -- A value that cannot be read or is out of range is dropped.
  unfoldable pub check_steps : OverrideAllowlists → Option Json → Fields → Validation
  check_steps a none validated = valid validated
  check_steps a (some x) validated = elim (int_of py x) [
    | value n ↦
        if leb_ℤ a.min_steps n && leb_ℤ n a.max_steps
        then valid (put "steps" (integer n) validated)
        else valid validated
    | refused ↦ valid validated
    | overflow ↦ invalid overflow_error
  ]

  unfoldable pub check_cfg_scale : OverrideAllowlists → Option Json → Fields → Validation
  check_cfg_scale a none validated = valid validated
  check_cfg_scale a (some x) validated = elim (float_of py x) [
    | value f ↦
        if py.le (py.read a.min_cfg_scale) f && py.le f (py.read a.max_cfg_scale)
        then valid (put "cfg_scale" (float (py.print f)) validated)
        else valid validated
    | refused ↦ valid validated
    | overflow ↦ invalid overflow_error
  ]

  unfoldable pub check_negative_prompt : OverrideAllowlists → Option Json → Fields → Validation
  check_negative_prompt a none validated = valid validated
  check_negative_prompt a (some x) validated =
      valid (
        put "negative_prompt" (string (take_chars a.max_negative_prompt_chars (str py x)))
          validated)

  unfoldable pub check_object : OverrideAllowlists → Fields → Validation
  check_object a overrides =
      if has_unknown overrides
      then invalid unknown_keys
      else check_strings (string_fields a) overrides end
        >>= check_steps a (get "steps" overrides)
        >>= check_cfg_scale a (get "cfg_scale" overrides)
        >>= check_negative_prompt a (get "negative_prompt" overrides)

  unfoldable pub validate_overrides : Option Json → OverrideAllowlists → Validation
  validate_overrides none a = valid end
  validate_overrides (some null) a = valid end
  validate_overrides (some (object overrides)) a = check_object a overrides
  validate_overrides (some _) a = invalid not_an_object
