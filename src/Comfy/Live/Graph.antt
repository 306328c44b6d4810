-- ===== src/Comfy/Live/Graph.antt =====
-- The two graphs that backend/app/adapters/comfyui/live.py builds.
use imagin.Prelude.{ℕ, String}
use imagin.Prelude.Int.{ℤ, pos}
use imagin.Prelude.Json.{Json, Fields, integer, float, string, array, object, nil, cons, end, field}
use imagin.Jobs.Profiles.{ComfyProfile}

-- `[node, output]`
abbrev pub link : String → ℕ → Json
link node output = array (cons (string node) (cons (integer (pos output)) nil))

abbrev pub node : String → Fields → Json
node class_type inputs =
    object (field "class_type" (string class_type) (field "inputs" (object inputs) end))

abbrev sampler : ComfyProfile → ℤ → String → String → Json
sampler p seed model latent_image = node "KSampler" (
    field "seed" (integer seed) (
      field "steps" (integer p.steps) (
        field "cfg" (float p.cfg_scale) (
          field "sampler_name" (string p.sampler_name) (
            field "scheduler" (string p.scheduler) (
              field "denoise" (float "1.0") (
                field "model" (link model 0) (
                  field "positive" (link "6" 0) (
                    field "negative" (link "7" 0)
                      (field "latent_image" (link latent_image 0) end))))))))))

abbrev encoder : String → Json → Json
encoder words clip = node "CLIPTextEncode" (field "text" (string words) (field "clip" clip end))

abbrev latent : String → ℕ × ℕ → Json
latent class_type (width, height) = node class_type (
    field "width" (integer (pos width))
      (field "height" (integer (pos height)) (field "batch_size" (integer (pos 1)) end)))

abbrev decoder : Json → Json
decoder vae = node "VAEDecode" (field "samples" (link "3" 0) (field "vae" vae end))

abbrev saver : String → Json
saver filename_prefix =
    node "SaveImage"
      (field "filename_prefix" (string filename_prefix) (field "images" (link "8" 0) end))

-- `_build_checkpoint_graph`
unfoldable pub build_checkpoint_graph : ComfyProfile → String → ℕ × ℕ → ℤ → String → Fields
build_checkpoint_graph p prompt_text size seed filename_prefix =
    field "3" (sampler p seed "4" "5") (
      field "4" (node "CheckpointLoaderSimple" (field "ckpt_name" (string p.checkpoint_name) end)) (
        field "5" (latent "EmptyLatentImage" size) (
          field "6" (encoder prompt_text (link "4" 1)) (
            field "7" (encoder p.negative_prompt (link "4" 1))
              (field "8" (decoder (link "4" 2)) (field "9" (saver filename_prefix) end))))))

-- `_build_split_auraflow_graph`
unfoldable pub build_split_auraflow_graph :
    ComfyProfile → String → ℕ × ℕ → ℤ → String → String → Fields
build_split_auraflow_graph p prompt_text size seed filename_prefix clip_type =
    field "3" (sampler p seed "66" "58") (
      field "6" (encoder prompt_text (link "38" 0)) (
        field "7" (encoder p.negative_prompt (link "38" 0)) (
          field "8" (decoder (link "39" 0)) (
            field "9" (saver filename_prefix) (
              field "37"
                (node "UNETLoader" (
                  field "unet_name" (string p.diffusion_model_name)
                    (field "weight_dtype" (string "default") end)))
                (field "38"
                  (node "CLIPLoader" (
                    field "clip_name" (string p.clip_name)
                      (field "type" (string clip_type) (field "device" (string "default") end))))
                  (field "39" (node "VAELoader" (field "vae_name" (string p.vae_name) end)) (
                    field "58" (latent "EmptySD3LatentImage" size) (
                      field "66"
                        (node "ModelSamplingAuraFlow" (
                          field "model" (link "37" 0)
                            (field "shift" (float p.model_sampling_shift) end)))
                        end)))))))))
