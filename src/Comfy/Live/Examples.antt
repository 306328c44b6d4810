-- ===== src/Comfy/Live/Examples.antt =====
-- Tests of the live client, and its theorems at concrete inputs.
use imagin.Prelude.{String, false, none, some, refl, [], ◌≡◌, ◌⊎◌}
use imagin.Prelude.Json.{Fields, string, end, field, get}
use imagin.Config.TallyMarks.{tally_marks}
use imagin.Config.Fixtures.{settings}
use imagin.Jobs.Profiles.{of_tier}
use imagin.Prelude.Int.{pos}
use imagin.Prelude.Parts.{has_colon, join, with_colon}
use imagin.Prelude.Strip.{strip, lstrip, rstrip, is_space}
use imagin.Prelude.Python.{str}
use imagin.Comfy.{accepted}
use imagin.Comfy.Live.Graph.{build_checkpoint_graph}
use imagin.Comfy.Live.{
  LiveClient, done, failed, build_prompt_graph, resolve_active_profile, prompt_of,
}
use imagin.Comfy.Live.Size.{
  AllSides, lookup_of, resolve_dimensions, resolve_dimensions-AllSides, side,
}
use imagin.Comfy.Live.Links.{IsLinked, build_prompt_graph-IsLinked}
use imagin.Comfy.Live.Server.{Server, local_failure, submit, sanitized_error}
use imagin.Comfy.Live.Server.Lost.{submit-answered, Accepted, Lost}

abbrev client : LiveClient
client = record {
  client_id = "imaginv";
  default_profile = of_tier "student" settings.student;
  profiles = [];
  override_allowlists = none;
}

abbrev payload : Fields
payload = field "prompt" (string "a cat") end

-- A server that cannot be reached.
abbrev down : Server
down = record {
  post_prompt = λ body. failed "ConnectError";
  history = λ p. failed "ConnectError";
  queue = failed "ConnectError";
  fetch_and_store_outputs = λ entry. failed "ConnectError";
}

-- The sides of a wide picture are cut to the same length, and it is wide no more.
wide_4K :
    resolve_dimensions (some (string "16:9")) (some (string "4K")) "checkpoint" ≡ some (4096, 3072)
unfolding resolve_dimensions side
wide_4K = refl

resolve_dimensions-AllSides_example :
    AllSides
      (lookup_of (some (string "16:9")))
      (lookup_of none)
      (resolve_dimensions (some (string "16:9")) none "qwen_image")
resolve_dimensions-AllSides_example =
    resolve_dimensions-AllSides (some (string "16:9")) none "qwen_image"

abbrev graph : Fields
graph = build_checkpoint_graph client.default_profile "a cat" (1024, 1024) (pos 7) "p"

built : build_prompt_graph tally_marks client payload "p" 7 ≡ done graph
unfolding build_prompt_graph resolve_active_profile get resolve_dimensions side prompt_of strip
    lstrip rstrip is_space str
built = refl

build_prompt_graph-IsLinked_example : IsLinked graph
build_prompt_graph-IsLinked_example =
    build_prompt_graph-IsLinked tally_marks client payload "p" 7 graph built

abbrev lost_id : String
lost_id = "localfail:0f:comfy_live_error:ConnectError"

plain : has_colon "0f" ≡ false
unfolding has_colon
plain = refl

lost_here : (submit tally_marks down client payload 7 "p" "0f" []).0 ≡ accepted lost_id
unfolding submit build_prompt_graph resolve_active_profile get resolve_dimensions side prompt_of
    strip lstrip rstrip is_space str local_failure join with_colon sanitized_error
lost_here = refl

submit-answered_example :
    Accepted "0f" plain tally_marks down client payload 7 "p" [] lost_id
    ⊎ Lost "0f" plain tally_marks down client payload 7 "p" [] lost_id
submit-answered_example =
    submit-answered "0f" plain tally_marks down client payload 7 "p" [] lost_id lost_here
