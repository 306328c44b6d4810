-- ===== src/Contract/Examples.antt =====
-- The theorem on both queues, at a concrete input.
use imagin.Prelude.{none, [], ◌∷◌, ◌≡◌, refl, inl, inr, ◌==◌, Bool-cases}
use imagin.Prelude.Json.{end, object}
use imagin.Queue.{JobQueue}
use imagin.Queue.Store.{find}
use imagin.Queue.Fixtures.{early}
use imagin.Postgres.Tables.{Database, row_of}
use imagin.Postgres.Claim.{new_row}
use imagin.Jobs.Registry.{WorkflowDefinition}
use imagin.Contract.{Script, play, fails, retries, cancels}
use imagin.Contract.InMemory.{in_memory}
use imagin.Contract.Durable.{durable}
use imagin.Contract.Agreement.{SameViews, backends_agree}

abbrev script : Script
script =
    (30, 31, 1, retries "comfy_transient" none none 0)
    ∷ (40, 41, 1, cancels)
    ∷ (50, 51, 1, fails "comfy_error" none)
    ∷ []

abbrev workflow : WorkflowDefinition
workflow = record {
  name = "image_basic";
  version = "v1";
  model_family = "sdxl";
  graph_template = object end;
  backend = "comfyui";
}

abbrev store : JobQueue
store = record { jobs = early ∷ []; order = 1 ∷ [] }

abbrev tables : Database
tables = record { jobs = new_row early workflow ∷ []; attempts = []; events = [] }

same_at_first : SameViews in_memory durable store tables
unfolding row_of find
same_at_first k = elim (Bool-cases (1 == k)) [ inl e ↦ rw e refl | inr e ↦ rw e refl ]

backends_agree_example :
    in_memory.look 1 (play in_memory script store) ≡ durable.look 1 (play durable script tables)
backends_agree_example = backends_agree script store tables 1 same_at_first
