-- ===== src/Comfy/Live.antt =====
-- backend/app/adapters/comfyui/live.py: the submission of a prompt to a ComfyUI server, and the
-- reading of its status. The server's answers are values of `Server`.
pub mod Size
pub mod Graph
pub mod Links
pub mod Server
mod Examples
use imagin.Prelude.{ℕ, ◌%◌, ◌^◌, String, Option, none, some, List, [], ◌∷◌, str_eq, if◌then◌else◌}
use imagin.Prelude.Int.{ℤ, pos}
use imagin.Prelude.Strip.{strip}
use imagin.Prelude.Json.{Json, Fields, array, object, end, get, truthy, truthy_at}
use imagin.Prelude.Python.{Python, Converted, value, refused, overflow, str, int_of}
use imagin.Jobs.Profiles.{ComfyProfile}
use imagin.Jobs.Overrides.{OverrideAllowlists, valid, invalid, overflow_error, validate_overrides}
use imagin.Jobs.Overrides.Apply.{apply_overrides}
use imagin.Comfy.Live.Size.{
  Lookup, missing, text, no_text, unhashable, lookup_of, resolve_dimensions,
}
use imagin.Comfy.Live.Graph.{build_checkpoint_graph, build_split_auraflow_graph}

-- What the client is built with.
pub record LiveClient : Type 0 where
  pub client_id : String
  pub default_profile : ComfyProfile
  pub profiles : List ComfyProfile
  pub override_allowlists : Option OverrideAllowlists

-- A result, or an exception of the named type.
pub data Result {ℓ} (A : Type ℓ) : Type ℓ where
  done : A → Result A
  failed : String → Result A

infixl 5 ◌>>=◌
abbrev pub ◌>>=◌ {ℓ κ} : {A : Type ℓ} {B : Type κ} → Result A → (A → Result B) → Result B
done x >>= f = f x
failed e >>= f = failed e

abbrev pub profile_at : String → List ComfyProfile → ComfyProfile → ComfyProfile
profile_at key [] default_profile = default_profile
profile_at key (p ∷ ps) default_profile =
    if str_eq p.key key then p else profile_at key ps default_profile

-- `self._profiles.get(key) if key else None`, or the default.
abbrev pub chosen_profile : LiveClient → Lookup → Result ComfyProfile
chosen_profile c missing = done c.default_profile
chosen_profile c (text key) = done (profile_at key c.profiles c.default_profile)
chosen_profile c no_text = done c.default_profile
chosen_profile c unhashable = failed "TypeError"

abbrev pub applied : Option ComfyProfile → Result ComfyProfile
applied none = failed "TypeError"
applied (some p) = done p

module _ (py : Python) where
  -- Invalid overrides are dropped.
  abbrev pub with_overrides : ComfyProfile → Option Json → OverrideAllowlists → Result ComfyProfile
  with_overrides p overrides a = elim (validate_overrides py overrides a) [
    | valid d ↦ applied (apply_overrides p d)
    | invalid overflow_error ↦ failed "OverflowError"
    | invalid _ ↦ applied (apply_overrides p end)
  ]

  abbrev pub overridden :
      Option OverrideAllowlists → Option Json → ComfyProfile → Result ComfyProfile
  overridden none overrides p = done p
  overridden (some a) overrides p =
      if truthy_at overrides then with_overrides p overrides a else done p

  -- `_resolve_active_profile`
  unfoldable pub resolve_active_profile : LiveClient → Fields → Result ComfyProfile
  resolve_active_profile c payload =
      chosen_profile c (lookup_of (get "model_profile" payload))
      >>= overridden c.override_allowlists (get "model_overrides" payload)

  abbrev pub text_of : Option Json → String
  text_of none = ""
  text_of (some v) = if truthy v then str py v else ""

  -- `str(workflow_payload.get("prompt") or "").strip()`
  unfoldable pub prompt_of : Fields → String
  prompt_of payload = strip (text_of (get "prompt" payload))

  -- The exception of `int(v)` for a value that is no number.
  abbrev int_error : Json → String
  int_error (array xs) = "TypeError"
  int_error (object d) = "TypeError"
  int_error _ = "ValueError"

  abbrev converted : Json → Converted ℤ → Result ℤ
  converted v (value z) = done z
  converted v refused = failed (int_error v)
  converted v overflow = failed "OverflowError"

  -- `int(workflow_payload.get("seed") or uuid.uuid4().int % (2**32))`
  abbrev pub seed_of : Option Json → ℕ → Result ℤ
  seed_of none draw = done (pos (draw % 2 ^ 32))
  seed_of (some v) draw = if truthy v then converted v (int_of py v) else done (pos (draw % 2 ^ 32))

  abbrev pub graph_of : ComfyProfile → String → String → ℕ × ℕ → ℤ → Fields
  graph_of p prompt prefix size seed =
      if str_eq p.model_family "qwen_image"
      then build_split_auraflow_graph p prompt size seed prefix "qwen_image"
      else if str_eq p.model_family "z_image_turbo"
      then build_split_auraflow_graph p prompt size seed prefix "lumina2"
      else build_checkpoint_graph p prompt size seed prefix

  abbrev pub sized : Option (ℕ × ℕ) → Result (ℕ × ℕ)
  sized none = failed "TypeError"
  sized (some size) = done size

  -- `_build_prompt_graph`; `draw` is the random identifier.
  unfoldable pub build_prompt_graph : LiveClient → Fields → String → ℕ → Result Fields
  build_prompt_graph c payload prefix draw = resolve_active_profile c payload >>= λ p.
      sized
        (resolve_dimensions (get "aspect_ratio" payload) (get "resolution" payload) p.model_family)
      >>= λ size. seed_of (get "seed" payload) draw >>= λ seed.
          done (graph_of p (prompt_of payload) prefix size seed)
