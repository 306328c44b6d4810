-- ===== src/Chat/Routing/Paid.antt =====
-- What it takes for a proposal to cost money, backend/app/domain/chat.
use imagin.Prelude.{
  String, ◌≡◌, refl, sym, ap, ◌∙◌, ◌⊎◌, inl, inr, false, Option, none, some, str_eq, contains,
  arith, Bool-cases,
}
use imagin.Prelude.Json.{
  Json, Items, Fields, null, boolean, integer, float, string, array, object, nil, get, get-put,
}
use imagin.Chat.Routing.{
  Intent, chat, general_image, poster, infographic, clarification, intent_text, RouteDecision,
  Validate, decided, route_decision_error, default_list, with_fallback, with_reason, with_lists,
  validated, valid_reason_codes, parse_route_decision, enqueue_paid_image, decide_next_step,
  step_for,
}

-- pydantic takes the intent and the prompt from the dictionary: a text for the one, and the text of a
-- member of the enumeration for the other.
pub record IsStrict (validate : Validate) : Type 0 where
  pub intent_given :
      (raw : Fields) (d : RouteDecision)
      → validate raw ≡ some d
      → get "intent" raw ≡ some (string (intent_text d.intent))
  pub prompt_given :
      (raw : Fields) (d : RouteDecision)
      → validate raw ≡ some d
      → get "normalized_prompt" raw ≡ some (string d.normalized_prompt)

some_injective : {A : Type 0} {a b : A} → some a ≡ some b → a ≡ b
some_injective e = cc

decided_injective : {a b : RouteDecision} → decided a ≡ decided b → a ≡ b
decided_injective e = cc

-- The defaults leave the other fields.
default_list-get :
    (j key : String) (raw : Fields)
    → str_eq key j ≡ false
    → get j (default_list key raw) ≡ get j raw
unfolding default_list
default_list-get j key raw h = ground (arith, get-put j key (array nil) raw)

with_lists-get :
    (j : String) (raw : Fields)
    → str_eq "exact_text" j ≡ false
    → str_eq "missing_fields" j ≡ false
    → get j (with_lists raw) ≡ get j raw
unfolding with_lists
with_lists-get j raw h g =
    default_list-get j "missing_fields" (default_list "exact_text" raw) g
    ∙ default_list-get j "exact_text" raw h

fallback-get :
    (j : String) (raw raw' : Fields)
    → str_eq "reason_code" j ≡ false
    → some (with_fallback raw) ≡ some raw'
    → get j raw' ≡ get j raw
fallback-get j raw raw' h e =
    ap (get j) (sym (some_injective e))
    ∙ get-put j "reason_code" (string "ambiguous_visual_deliverable") raw
    ∙ rw h refl

with_reason-get :
    (j : String) (v : Option Json) (raw raw' : Fields)
    → str_eq "reason_code" j ≡ false
    → with_reason v raw ≡ some raw'
    → get j raw' ≡ get j raw
with_reason-get j none raw raw' h e = fallback-get j raw raw' h e
with_reason-get j (some (string s)) raw raw' h e =
    elim (Bool-cases (contains s valid_reason_codes)) [
      | inl t ↦ let same : raw ≡ raw' = some_injective (rw t at e) in ap (get j) (sym same)
      | inr t ↦ fallback-get j raw raw' h (rw t at e)
    ]
with_reason-get j (some (array xs)) raw raw' h e = absurd cc
with_reason-get j (some (object d)) raw raw' h e = absurd cc
with_reason-get j (some null) raw raw' h e = fallback-get j raw raw' h e
with_reason-get j (some (boolean b)) raw raw' h e = fallback-get j raw raw' h e
with_reason-get j (some (integer z)) raw raw' h e = fallback-get j raw raw' h e
with_reason-get j (some (float r)) raw raw' h e = fallback-get j raw raw' h e

-- What pydantic gets has the field that the proposal has.
abbrev Keeps : String → Fields → Fields → Type 0
Keeps j raw sent = get j sent ≡ get j raw

decided-sent :
    (validate : Validate) (o : Option Fields) (d : RouteDecision)
    → validated validate o ≡ decided d
    → (sent : Fields) × (o ≡ some sent) × (validate sent ≡ some d)
decided-sent validate none d e = absurd cc
decided-sent validate (some sent) d e = (sent, refl, from_answer (validate sent) e)
  where
    from_answer :
        (o : Option RouteDecision)
        → elim o [ none ↦ route_decision_error | some d' ↦ decided d' ] ≡ decided d
        → o ≡ some d
    from_answer none e = absurd cc
    from_answer (some d') e = ap some (decided_injective e)

-- An intent that costs money, under the name of its action.
abbrev pub Asks : Fields → String → Type 0
Asks raw action =
    ((get "intent" raw ≡ some (string "POSTER")) × (action ≡ "poster"))
    ⊎ ((get "intent" raw ≡ some (string "INFOGRAPHIC")) × (action ≡ "infographic"))

abbrev Costs : RouteDecision → Intent → String → String → String → Type 0
Costs d intent action prompt billing =
    (((intent ≡ poster) × (action ≡ "poster"))
      ⊎ ((intent ≡ infographic) × (action ≡ "infographic")))
    × (d.normalized_prompt ≡ prompt)
    × (billing ≡ "paid")

step_for-Costs :
    (intent : Intent) (d : RouteDecision) (action prompt billing : String) (ex : Items)
    → step_for intent d ≡ enqueue_paid_image action prompt ex billing
    → Costs d intent action prompt billing
step_for-Costs chat d action prompt billing ex e = absurd cc
step_for-Costs clarification d action prompt billing ex e = absurd cc
step_for-Costs general_image d action prompt billing ex e = absurd cc
step_for-Costs poster d action prompt billing ex e = (inl (refl, cc), cc, cc)
step_for-Costs infographic d action prompt billing ex e = (inr (refl, cc), cc, cc)

module _ (validate : Validate) (strict : IsStrict validate) where
  sent-Keeps :
      (j : String) (raw sent : Fields)
      → str_eq "exact_text" j ≡ false
      → str_eq "missing_fields" j ≡ false
      → str_eq "reason_code" j ≡ false
      → with_reason (get "reason_code" (with_lists raw)) (with_lists raw) ≡ some sent
      → Keeps j raw sent
  sent-Keeps j raw sent h g k e =
      with_reason-get j (get "reason_code" (with_lists raw)) (with_lists raw) sent k e
      ∙ with_lists-get j raw h g

  -- What a paid step says of the proposal.
  abbrev pub Proposed : Json → String → String → String → Type 0
  Proposed raw action prompt billing =
      (fields : Fields) × (raw ≡ object fields)
      × Asks fields action
      × (get "normalized_prompt" fields ≡ some (string prompt))
      × (billing ≡ "paid")

  from_Costs :
      (raw sent : Fields) (d : RouteDecision) (action prompt billing : String)
      → Keeps "intent" raw sent
      → Keeps "normalized_prompt" raw sent
      → validate sent ≡ some d
      → Costs d d.intent action prompt billing
      → Proposed (object raw) action prompt billing
  from_Costs raw sent d action prompt billing keeps_intent keeps_prompt v (which, same, paid) =
      let intent = sym keeps_intent ∙ strict.intent_given sent d v in
      let given = sym keeps_prompt ∙ strict.prompt_given sent d v in
      (raw, refl, asks which intent, given ∙ ap (λ t. some (string t)) same, paid)
    where
      asks :
          ((d.intent ≡ poster) × (action ≡ "poster"))
            ⊎ ((d.intent ≡ infographic) × (action ≡ "infographic"))
          → get "intent" raw ≡ some (string (intent_text d.intent))
          → Asks raw action
      asks (inl (i, a)) given = inl (given ∙ ap (λ n. some (string (intent_text n))) i, a)
      asks (inr (i, a)) given = inr (given ∙ ap (λ n. some (string (intent_text n))) i, a)

  -- Where pydantic takes the intent and the prompt from the dictionary that it validates: a proposal of
  -- the language model that makes a paid step is a dictionary whose own intent is POSTER or
  -- INFOGRAPHIC, as the action of the step, with the prompt of the step; and the step says "paid".
  pub parse_route_decision_paid :
      (raw : Json) (d : RouteDecision) (action prompt billing : String) (ex : Items)
      → parse_route_decision validate raw ≡ decided d
      → decide_next_step d ≡ enqueue_paid_image action prompt ex billing
      → Proposed raw action prompt billing
  unfolding parse_route_decision decide_next_step
  parse_route_decision_paid (object raw) d action prompt billing ex e h =
      let (sent, s, v) = decided-sent validate _ d e in
      from_Costs raw sent d action prompt billing (sent-Keeps "intent" raw sent refl refl refl s)
        (sent-Keeps "normalized_prompt" raw sent refl refl refl s) v
        (step_for-Costs d.intent d action prompt billing ex h)
  parse_route_decision_paid null d action prompt billing ex e h = absurd cc
  parse_route_decision_paid (boolean b) d action prompt billing ex e h = absurd cc
  parse_route_decision_paid (integer z) d action prompt billing ex e h = absurd cc
  parse_route_decision_paid (float r) d action prompt billing ex e h = absurd cc
  parse_route_decision_paid (string t) d action prompt billing ex e h = absurd cc
  parse_route_decision_paid (array xs) d action prompt billing ex e h = absurd cc
