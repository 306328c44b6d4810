-- ===== src/Comfy/Routing/Examples.antt =====
-- The theorem on the routing client at a concrete input.
use imagin.Prelude.{true, String, false, none, some, refl, ◌≡◌, ◌⊎◌}
use imagin.Prelude.Json.{end}
use imagin.Prelude.Parts.{has_colon, join, with_colon}
use imagin.Config.TallyMarks.{tally_marks}
use imagin.Jobs.Registry.{resolve_workflow, look_up}
use imagin.Comfy.{accepted, failed_status}
use imagin.Comfy.Routing.{Composite, submit}
use imagin.Comfy.Routing.RoundTrip.{Served, Unserved, route-get_status}

abbrev local_only : Composite
local_only = record {
  comfyui = record {
    submit = λ payload kind. accepted "1:b";
    get_status = λ p. failed_status p "gone";
    health = true;
  };
  gemini = none;
  comfy_prompt_designer = none;
  image_provider_name = "openrouter";
}

plain : has_colon "openrouter" ≡ false
unfolding has_colon
plain = refl

abbrev poster_id : String
poster_id = "notconfigured:openrouter:0f"

no_poster : submit tally_marks local_only end (some "poster_infographic") "0f" ≡ accepted poster_id
unfolding submit resolve_workflow look_up join with_colon
no_poster = refl

route-get_status_example :
    Served tally_marks local_only plain refl end (some "poster_infographic") poster_id
    ⊎ Unserved tally_marks local_only plain refl (some "poster_infographic") poster_id
route-get_status_example =
    route-get_status tally_marks local_only plain refl end (some "poster_infographic") poster_id
      "0f" no_poster
