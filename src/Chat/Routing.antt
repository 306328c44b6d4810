-- ===== src/Chat/Routing.antt =====
-- backend/app/domain/chat/routing.py and decision_service.py: from what a language model proposes to
-- what the backend does. `RouteDecision.model_validate` is pydantic's, a parameter.
pub mod Paid
mod Examples
use imagin.Prelude.{
  String, Bool, true, false, Option, none, some, List, [], ◌∷◌, str_eq, if◌then◌else◌, contains,
}
use imagin.Prelude.Json.{Json, Items, Fields, null, string, array, object, nil, get, put}
use imagin.Prelude.Parts.{join}

pub data Intent : Type 0 where
  chat general_image poster infographic clarification : Intent

-- `i.value`
abbrev pub intent_text : Intent → String
intent_text chat = "CHAT"
intent_text general_image = "GENERAL_IMAGE"
intent_text poster = "POSTER"
intent_text infographic = "INFOGRAPHIC"
intent_text clarification = "CLARIFICATION"

-- `_VALID_REASON_CODES`
abbrev pub valid_reason_codes : List String
valid_reason_codes =
    "question_or_discussion" ∷ "general_visual_request" ∷ "structured_promotional_layout"
    ∷ "structured_information_design" ∷ "ambiguous_visual_deliverable" ∷ "explicit_user_mode" ∷ []

abbrev pub is_paid : Intent → Bool
is_paid poster = true
is_paid infographic = true
is_paid _ = false

-- `derive_billing_category`
abbrev pub derive_billing_category : Intent → String
derive_billing_category intent = if is_paid intent then "paid" else "local"

pub record RouteDecision : Type 0 where
  pub intent : Intent
  pub normalized_prompt : String
  pub exact_text : Items
  pub missing_fields : Items
  pub clarification_question : Option String
  pub reason_code : String

-- `RouteDecision.model_validate`; `none` is the `ValidationError`.
abbrev pub Validate : Type 0
Validate = Fields → Option RouteDecision

-- A decision, `RouteDecisionError`, or the `TypeError` for a reason code that is a list or a dictionary.
pub data Parsed : Type 0 where
  decided : RouteDecision → Parsed
  route_decision_error type_error : Parsed

-- `raw.get(field) is None`
abbrev is_absent : Option Json → Bool
is_absent none = true
is_absent (some null) = true
is_absent (some v) = false

unfoldable pub default_list : String → Fields → Fields
default_list key raw = if is_absent (get key raw) then put key (array nil) raw else raw

abbrev pub with_fallback : Fields → Fields
with_fallback raw = put "reason_code" (string "ambiguous_visual_deliverable") raw

-- `none` is the `TypeError`.
abbrev pub with_reason : Option Json → Fields → Option Fields
with_reason (some (string s)) raw =
    some (if contains s valid_reason_codes then raw else with_fallback raw)
with_reason (some (array xs)) raw = none
with_reason (some (object d)) raw = none
with_reason v raw = some (with_fallback raw)

unfoldable pub with_lists : Fields → Fields
with_lists raw = default_list "missing_fields" (default_list "exact_text" raw)

abbrev pub validated : Validate → Option Fields → Parsed
validated validate none = type_error
validated validate (some raw) = elim (validate raw) [
  | none ↦ route_decision_error
  | some d ↦ decided d
]

unfoldable pub parse_route_decision : Validate → Json → Parsed
parse_route_decision validate (object raw) =
    validated validate (with_reason (get "reason_code" (with_lists raw)) (with_lists raw))
parse_route_decision validate v = route_decision_error

pub data NextStep : Type 0 where
  respond_chat : NextStep
  respond_clarification : String → NextStep
  enqueue_general_image : String → Items → NextStep
  -- the type of the action, the prompt, the exact text, and the billing category
  enqueue_paid_image : String → String → Items → String → NextStep

abbrev pub default_clarification_question : String
default_clarification_question = "ช่วยอธิบายเพิ่มเติมได้ไหมคะว่าต้องการอะไร?"

-- `decision.clarification_question or _DEFAULT_CLARIFICATION_QUESTION`
abbrev question_of : Option String → String
question_of none = default_clarification_question
question_of (some q) = if str_eq q "" then default_clarification_question else q

abbrev step_for : Intent → RouteDecision → NextStep
step_for chat d = respond_chat
step_for clarification d = respond_clarification (question_of d.clarification_question)
step_for general_image d = enqueue_general_image d.normalized_prompt d.exact_text
step_for poster d =
    enqueue_paid_image "poster" d.normalized_prompt d.exact_text (derive_billing_category poster)
step_for infographic d =
    enqueue_paid_image "infographic" d.normalized_prompt d.exact_text
      (derive_billing_category infographic)

unfoldable pub decide_next_step : RouteDecision → NextStep
decide_next_step d = step_for d.intent d

-- `"\n".join(f"- {t}" for t in exact_text)`
unfoldable pub lines : List String → String
lines [] = ""
lines (t ∷ []) = join "- " t
lines (t ∷ u ∷ ts) = join "- " (join t (join "\n" (lines (u ∷ ts))))

abbrev lines_or_none : List String → String
lines_or_none [] = "(none)"
lines_or_none (t ∷ ts) = lines (t ∷ ts)

unfoldable pub build_prompt_design_user_message : String → List String → String
build_prompt_design_user_message prompt exact_text = join "Content brief: " (
    join prompt
      (join "\n\nText that must appear verbatim in the image:\n" (lines_or_none exact_text)))

unfoldable pub build_comfy_prompt_design_user_message : String → List String → String
build_comfy_prompt_design_user_message prompt [] = join "Content brief: " prompt
build_comfy_prompt_design_user_message prompt (t ∷ ts) = join "Content brief: " (
    join prompt
      (join "\n\nRelated thematic context (not to be rendered as text):\n" (lines (t ∷ ts))))
