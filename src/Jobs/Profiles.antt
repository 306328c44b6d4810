-- ===== src/Jobs/Profiles.antt =====
-- backend/app/domain/jobs/comfy_profiles.py: the model profiles, and the check of a requested one.
use imagin.Prelude.{
  String, not, ◌||◌, Option, none, some, List, [], ◌∷◌, map, str_eq, if◌then◌else◌, contains,
}
use imagin.Prelude.Int.{ℤ}
use imagin.Prelude.Strip.{strip}
use imagin.Prelude.Json.{Json, string, truthy}
use imagin.Config.{Settings, Tier}

abbrev pub default_profile_key : String
default_profile_key = "student"

pub record ComfyProfile : Type 0 where
  pub key : String
  pub checkpoint_name : String
  pub model_family : String
  pub diffusion_model_name : String
  pub clip_name : String
  pub vae_name : String
  pub model_sampling_shift : String
  pub sampler_name : String
  pub scheduler : String
  pub steps : ℤ
  pub cfg_scale : String
  pub negative_prompt : String

abbrev pub of_tier : String → Tier → ComfyProfile
of_tier key t = record {
  key = key;
  checkpoint_name = t.checkpoint_name;
  model_family = t.model_family;
  diffusion_model_name = t.diffusion_model_name;
  clip_name = t.clip_name;
  vae_name = t.vae_name;
  model_sampling_shift = t.model_sampling_shift;
  sampler_name = t.sampler_name;
  scheduler = t.scheduler;
  steps = t.steps;
  cfg_scale = t.cfg_scale;
  negative_prompt = t.negative_prompt;
}

-- The values of the dictionary; each stands under its `key`.
unfoldable pub build_profiles : Settings → List ComfyProfile
build_profiles s =
    of_tier default_profile_key s.student
    ∷ (if not (str_eq s.personnel.checkpoint_name "")
          || not (str_eq s.personnel.diffusion_model_name "")
        then of_tier "personnel" s.personnel ∷ []
        else [])

-- `list_profile_keys`
unfoldable pub profile_keys : List ComfyProfile → List String
profile_keys = map (λ p. p.key)

pub data ProfileKey : Type 0 where
  key_is : String → ProfileKey
  -- `UnknownModelProfileError`
  unknown : String → ProfileKey
  -- a true value that is no text has no `strip`: `AttributeError`
  no_text : ProfileKey

-- `key not in available`, where the stripped text may be empty.
abbrev check_key : String → List String → ProfileKey
check_key key available = if contains key available then key_is key else unknown key

abbrev or_default : String → String
or_default s = if str_eq s "" then default_profile_key else s

unfoldable pub resolve_profile_key : Option Json → List String → ProfileKey
resolve_profile_key none available = check_key default_profile_key available
resolve_profile_key (some (string s)) available = check_key (or_default (strip s)) available
resolve_profile_key (some v) available =
    if truthy v then no_text else check_key default_profile_key available
