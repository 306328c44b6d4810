-- ===== src/Jobs/Registry.antt =====
-- backend/app/domain/jobs/workflow_registry.py: the allowlist of workflows, and the kinds of each
-- backend.
pub mod Kinds
mod Examples
use imagin.Prelude.{
  String, ◌&&◌, Option, none, some, List, [], ◌∷◌, map, str_eq, if◌then◌else◌, filter,
}
use imagin.Prelude.Json
use imagin.Prelude.Json.{Json}

pub record WorkflowDefinition : Type 0 where
  pub name : String
  pub version : String
  pub model_family : String
  pub graph_template : Json
  pub backend : String

abbrev workflow : String → String → String → String → WorkflowDefinition
workflow name version model_family backend = record {
  name = name;
  version = version;
  model_family = model_family;
  graph_template = Json.object Json.end;
  backend = backend;
}

-- `_REGISTRY.values()`; the key of each entry is its name and version.
abbrev pub registry : List WorkflowDefinition
registry =
    workflow "txt2img_basic" "v1" "sdxl" "comfyui"
    ∷ workflow "img2img_basic" "v1" "sdxl" "comfyui"
    ∷ workflow "image_basic" "v1" "sdxl" "comfyui"
    ∷ workflow "poster_infographic" "v1" "gemini-image" "gemini"
    ∷ []

unfoldable pub look_up : String → String → List WorkflowDefinition → Option WorkflowDefinition
look_up name version [] = none
look_up name version (w ∷ ws) =
    if str_eq w.name name && str_eq w.version version then some w else look_up name version ws

-- `none` is `UnknownWorkflowError`.
unfoldable pub resolve_workflow : String → String → Option WorkflowDefinition
unfolding look_up
resolve_workflow name version = look_up name version registry

unfoldable pub list_workflows : List WorkflowDefinition
list_workflows = registry

unfoldable pub first_backend : String → List WorkflowDefinition → Option String
first_backend kind [] = none
first_backend kind (w ∷ ws) = if str_eq w.name kind then some w.backend else first_backend kind ws

unfoldable pub backend_for_kind : String → Option String
unfolding first_backend
backend_for_kind kind = first_backend kind registry

unfoldable pub kinds_for_backend : String → List String
kinds_for_backend backend = map (λ w. w.name) (filter (λ w. str_eq w.backend backend) registry)
