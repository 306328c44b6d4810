-- ===== src/Jobs/Registry/Examples.antt =====
-- A test of the registry.
use imagin.Prelude.{refl, some, ◌≡◌}
use imagin.Prelude.Json.{object, end}
use imagin.Jobs.Registry.{WorkflowDefinition, resolve_workflow}

abbrev poster : WorkflowDefinition
poster = record {
  name = "poster_infographic";
  version = "v1";
  model_family = "gemini-image";
  graph_template = object end;
  backend = "gemini";
}

found : resolve_workflow "poster_infographic" "v1" ≡ some poster
unfolding resolve_workflow
found = refl
