-- ===== src/Config.antt =====
-- backend/app/core/config.py: the fields of `Settings` that the modelled code reads. A float setting
-- is a decimal text; `estimated_job_duration` is in microseconds. Sizes and limits are not negative.
pub mod Fixtures
pub mod TallyMarks
use imagin.Prelude.{ℕ, String, Bool}
use imagin.Prelude.Int.{ℤ}

-- The fields of one tier, `comfy_*` or `comfy_personnel_*`.
pub record Tier : Type 0 where
  pub checkpoint_name : String
  pub model_family : String
  pub diffusion_model_name : String
  pub clip_name : String
  pub vae_name : String
  pub model_sampling_shift : String
  pub sampler_name : String
  pub scheduler : String
  pub steps : ℤ
  pub cfg_scale : String
  pub negative_prompt : String

pub record Settings : Type 0 where
  pub max_active_jobs_per_user : ℕ
  pub max_queued_jobs_per_user : ℕ
  pub global_queue_cap : ℕ
  pub estimated_job_duration : ℕ
  pub default_comfy_active_slots : ℕ
  pub default_gemini_active_slots : ℕ
  pub comfy_pending_buffer : ℕ
  pub student : Tier
  pub personnel : Tier
  pub allowed_checkpoints_csv : String
  pub allowed_diffusion_models_csv : String
  pub allowed_clips_csv : String
  pub allowed_vaes_csv : String
  pub allowed_samplers_csv : String
  pub allowed_schedulers_csv : String
  pub override_min_steps : ℤ
  pub override_max_steps : ℤ
  pub override_min_cfg_scale : String
  pub override_max_cfg_scale : String
  pub override_max_negative_prompt_chars : ℕ
  pub preview_enabled : Bool
  pub preview_steps : ℤ
