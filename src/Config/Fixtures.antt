-- ===== src/Config/Fixtures.antt =====
-- Settings for the examples.
use imagin.Prelude.{true}
use imagin.Prelude.Int.{pos}
use imagin.Config.{Settings, Tier}

abbrev tier : Tier
tier = record {
  checkpoint_name = "";
  model_family = "sdxl";
  diffusion_model_name = "";
  clip_name = "";
  vae_name = "";
  model_sampling_shift = "3.0";
  sampler_name = "euler";
  scheduler = "normal";
  steps = pos 20;
  cfg_scale = "7.0";
  negative_prompt = "";
}

abbrev pub settings : Settings
settings = record {
  max_active_jobs_per_user = 2;
  max_queued_jobs_per_user = 5;
  global_queue_cap = 100;
  estimated_job_duration = 30;
  default_comfy_active_slots = 2;
  default_gemini_active_slots = 3;
  comfy_pending_buffer = 1;
  student = tier;
  personnel = tier;
  allowed_checkpoints_csv = "a, b";
  allowed_diffusion_models_csv = "";
  allowed_clips_csv = "";
  allowed_vaes_csv = "";
  allowed_samplers_csv = "euler";
  allowed_schedulers_csv = "normal";
  override_min_steps = pos 1;
  override_max_steps = pos 50;
  override_min_cfg_scale = "1.0";
  override_max_cfg_scale = "20.0";
  override_max_negative_prompt_chars = 500;
  preview_enabled = true;
  preview_steps = pos 8;
}
