-- ===== src/Jobs/Overrides/Examples.antt =====
-- The theorem on the validation of overrides at a concrete input.
use imagin.Jobs.Profiles.{ComfyProfile, of_tier}
use imagin.Jobs.Overrides.Apply.{apply_overrides}
use imagin.Jobs.Overrides.Apply.Floor.{apply_overrides-floor}
use imagin.Prelude.Parts.{join}
use imagin.Prelude.{arith, String, refl, some, ◌≡◌}
use imagin.Prelude.Int.{pos}
use imagin.Prelude.Json.{Fields, object, string, integer, end, field, get, put}
use imagin.Prelude.Python.{str, int_of}
use imagin.Config.Fixtures.{settings}
use imagin.Config.TallyMarks.{tally_marks}
use imagin.Jobs.Overrides.{
  validate_overrides, check_object, has_unknown, check_strings, check_string, build_allowlists, csv,
  check_steps, check_cfg_scale, check_negative_prompt, valid,
}
use imagin.Prelude.Strip.{split, strip}
use imagin.Jobs.Overrides.Checked.{negative_prompt, Entries, validate_overrides-Entries}

abbrev asked : Fields
asked = field "sampler_name" (string " euler ") (field "steps" (integer (pos 20)) end)

abbrev kept : Fields
kept = field "sampler_name" (string "euler") (field "steps" (integer (pos 20)) end)

validated :
    validate_overrides tally_marks (some (object asked)) (build_allowlists settings) ≡ valid kept
unfolding validate_overrides check_object has_unknown check_strings check_string get
    build_allowlists csv split strip str check_steps int_of check_cfg_scale check_negative_prompt
    put
validated = refl

validate_overrides-Entries_example : Entries tally_marks (build_allowlists settings) kept
validate_overrides-Entries_example =
    validate_overrides-Entries tally_marks (build_allowlists settings) (some (object asked)) kept
      validated

abbrev profile : ComfyProfile
profile = of_tier "student" (record settings.student { negative_prompt = "blurry " })

abbrev negative : Fields
negative = field "negative_prompt" (string "red") end

negative-Entries : Entries tally_marks (build_allowlists settings) negative
unfolding build_allowlists
negative-Entries = (negative_prompt "red" (omega arith), tt)

apply_overrides-floor_example :
    (p' : ComfyProfile) × (apply_overrides profile negative ≡ some p')
    × (rest : String) × (p'.negative_prompt ≡ join (strip profile.negative_prompt) rest)
unfolding get
apply_overrides-floor_example =
    apply_overrides-floor tally_marks (build_allowlists settings) profile negative "red"
      negative-Entries refl
