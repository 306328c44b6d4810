-- ===== src/Chat/Routing/Examples.antt =====
-- The theorem on paid steps at a concrete input, with a validation that knows only posters.
use imagin.Prelude.{
  String, Option, none, some, ◌≡◌, refl, ap, ◌∙◌, str_eq, if◌then◌else◌, Bool-cases, inl, inr,
  eq_iff, [], ◌∷◌,
}
use imagin.Prelude.Parts.{join}
use imagin.Prelude.Json.{
  Json, Fields, null, boolean, integer, float, string, array, object, nil, end, field, get, put,
}
use imagin.Chat.Routing.{
  poster, intent_text, RouteDecision, Validate, parse_route_decision, decide_next_step, decided,
  enqueue_paid_image, default_list, with_lists, build_comfy_prompt_design_user_message, lines,
}
use imagin.Chat.Routing.Paid.{IsStrict, Proposed, parse_route_decision_paid}

abbrev as_text : Option Json → Option String
as_text (some (string s)) = some s
as_text _ = none

abbrev poster_of : String → RouteDecision
poster_of prompt = record {
  intent = poster;
  normalized_prompt = prompt;
  exact_text = nil;
  missing_fields = nil;
  clarification_question = none;
  reason_code = "explicit_user_mode";
}

abbrev poster_decision : Option String → Option String → Option RouteDecision
poster_decision (some i) (some p) = if str_eq i "POSTER" then some (poster_of p) else none
poster_decision _ _ = none

abbrev posters : Validate
posters raw = poster_decision (as_text (get "intent" raw)) (as_text (get "normalized_prompt" raw))

as_text-string : (o : Option Json) (s : String) → as_text o ≡ some s → o ≡ some (string s)
as_text-string none s e = absurd cc
as_text-string (some (string t)) s e = cc
as_text-string (some null) s e = absurd cc
as_text-string (some (boolean b)) s e = absurd cc
as_text-string (some (integer z)) s e = absurd cc
as_text-string (some (float r)) s e = absurd cc
as_text-string (some (array xs)) s e = absurd cc
as_text-string (some (object d)) s e = absurd cc

some_injective : {a b : RouteDecision} → some a ≡ some b → a ≡ b
some_injective e = cc

taken :
    (a b : Option String) (d : RouteDecision)
    → poster_decision a b ≡ some d
    → (a ≡ some (intent_text d.intent)) × (b ≡ some d.normalized_prompt)
taken none b d e = absurd cc
taken (some i) none d e = absurd cc
taken (some i) (some p) d e = elim (Bool-cases (str_eq i "POSTER")) [
  | inl t ↦
      let same : poster_of p ≡ d = some_injective (rw t at e) in
      (
        ap some ((eq_iff i "POSTER").0 t) ∙ ap (λ d. some (intent_text d.intent)) same,
        ap (λ d. some d.normalized_prompt) same,
      )
  | inr t ↦ let no = rw t at e in absurd cc
]

posters-IsStrict : IsStrict posters
posters-IsStrict = record {
  intent_given = λ raw d e. as_text-string _ _ (taken _ _ d e).0;
  prompt_given = λ raw d e. as_text-string _ _ (taken _ _ d e).1;
}

abbrev proposal : Fields
proposal = field "intent" (string "POSTER") (
    field "normalized_prompt" (string "a fair") (field "reason_code" (string "ambiguous_mode") end))

parsed : parse_route_decision posters (object proposal) ≡ decided (poster_of "a fair")
unfolding parse_route_decision with_lists default_list get put
parsed = refl

step : decide_next_step (poster_of "a fair") ≡ enqueue_paid_image "poster" "a fair" nil "paid"
unfolding decide_next_step
step = refl

parse_route_decision_paid_example :
    Proposed posters posters-IsStrict (object proposal) "poster" "a fair" "paid"
parse_route_decision_paid_example =
    parse_route_decision_paid posters posters-IsStrict (object proposal) (poster_of "a fair")
      "poster" "a fair" "paid" nil parsed step

themed :
    build_comfy_prompt_design_user_message "a cat" ("x" ∷ "y" ∷ [])
    ≡ "Content brief: a cat\n\nRelated thematic context (not to be rendered as text):\n- x\n- y"
unfolding build_comfy_prompt_design_user_message join lines
themed = refl
