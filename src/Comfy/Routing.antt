-- ===== src/Comfy/Routing.antt =====
-- backend/app/adapters/routing_comfyui.py: a job goes to the backend of its workflow, and the name of
-- the backend is part of the prompt identifier.
pub mod RoundTrip
mod Examples
use imagin.Prelude.{
  String, Bool, true, false, not, ◌&&◌, ◌||◌, Option, none, some, str_eq, if◌then◌else◌, [], ◌∷◌,
}
use imagin.Prelude.Strip.{strip}
use imagin.Prelude.Parts.{join, with_colon, partition}
use imagin.Prelude.Json.{
  Json, Items, Fields, string, array, object, nil, cons, field, end, get, put, truthy, truthy_at,
}
use imagin.Prelude.Python.{Python, str}
use imagin.Jobs.Registry.{resolve_workflow, WorkflowDefinition}
use imagin.Comfy.{Client, ComfyStatus, Submitted, accepted, raised, failed_status}

-- The answer of a prompt designer: a text, `None`, or an exception.
pub data Designed : Type 0 where
  design : Option String → Designed
  broken : Designed

pub record Composite : Type 0 where
  pub comfyui : Client
  pub gemini : Option Client
  pub comfy_prompt_designer : Option (String → Items → Designed)
  pub image_provider_name : String

-- `_resolve_backend`
abbrev pub backend_of : Composite → Option WorkflowDefinition → Option Client × String
backend_of c none = (some c.comfyui, "comfyui")
backend_of c (some w) =
    if str_eq w.backend "gemini" then (c.gemini, "gemini") else (some c.comfyui, "comfyui")

abbrev pub resolve_backend : Composite → Option String → Option Client × String
resolve_backend c none = (some c.comfyui, "comfyui")
resolve_backend c (some kind) = backend_of c (resolve_workflow kind "v1")

-- One stripped text, unless it is empty.
abbrev add_text : String → Items → Items
add_text t rest = if str_eq (strip t) "" then rest else cons (string (strip t)) rest

unfoldable pub texts : Items → Items
texts nil = nil
texts (cons (string t) rest) = add_text t (texts rest)
texts (cons v rest) = texts rest

unfoldable pub characters : String → Items
characters Prim.Native.String.[] = nil
characters (Prim.Native.String.◌∷◌ c s) = add_text (Prim.Native.String.◌∷◌ c "") (characters s)

unfoldable pub keys : Fields → Items
keys end = nil
keys (field k v rest) = add_text k (keys rest)

-- The list of the stripped texts in the value; `none` is the `TypeError` for one without elements.
abbrev elements : Json → Option Items
elements (array xs) = some (texts xs)
elements (string s) = some (characters s)
elements (object d) = some (keys d)
elements _ = none

abbrev pub exact_text_of : Option Json → Option Items
exact_text_of none = some nil
exact_text_of (some v) = if truthy v then elements v else some nil

abbrev is_nil : Items → Bool
is_nil nil = true
is_nil (cons v rest) = false

-- A text of the designer that is not blank takes the prompt's place.
abbrev redesigned : Fields → Designed → Fields
redesigned payload (design (some t)) =
    if str_eq (strip t) "" then payload else put "prompt" (string (strip t)) payload
redesigned payload _ = payload

abbrev designed : (String → Items → Designed) → Fields → String → Option Items → Option Fields
designed designer payload base_prompt none = none
designed designer payload base_prompt (some exact_text) = some (
    if not (str_eq base_prompt "") || not (is_nil exact_text)
    then redesigned payload (designer base_prompt exact_text)
    else payload)

module _ (py : Python) where
  abbrev text_of : Option Json → String
  text_of none = ""
  text_of (some v) = if truthy v then str py v else ""

  abbrev designed_with : Option (String → Items → Designed) → Fields → Option Fields
  designed_with none payload = some payload
  designed_with (some designer) payload =
      if truthy_at (get "skip_prompt_design" payload)
      then some payload
      else designed designer payload (strip (text_of (get "prompt" payload)))
          (exact_text_of (get "exact_text" payload))

  -- The payload that the backend gets.
  unfoldable pub refined : Composite → String → Fields → Option Fields
  refined c backend_name payload =
      if str_eq backend_name "comfyui"
      then designed_with c.comfy_prompt_designer payload
      else some payload

  abbrev pub tagged : String → Submitted → Submitted
  tagged backend_name (accepted p) = accepted (with_colon backend_name p)
  tagged backend_name (raised e) = raised e

  abbrev pub delegated : Client → String → Option String → Option Fields → Submitted
  delegated adapter backend_name kind none = raised "TypeError"
  delegated adapter backend_name kind (some payload) =
      tagged backend_name (adapter.submit payload kind)

  abbrev pub submitted :
      Composite → Option Client × String → Fields → Option String → String → Submitted
  submitted c (none, backend_name) payload kind hex =
      accepted (with_colon "notconfigured" (with_colon c.image_provider_name hex))
  submitted c (some adapter, backend_name) payload kind hex =
      delegated adapter backend_name kind (refined c backend_name payload)

  -- `hex` is the random identifier.
  unfoldable pub submit : Composite → Fields → Option String → String → Submitted
  submit c payload kind hex = submitted c (resolve_backend c kind) payload kind hex

abbrev pub asked_with : String → Option Client → String → ComfyStatus
asked_with prompt_id none rest = failed_status prompt_id "unknown_prompt_id"
asked_with prompt_id (some adapter) rest =
    let status = adapter.get_status rest in
    record {
      prompt_id = prompt_id;
      state = status.state;
      outputs = status.outputs;
      error = status.error;
    }

-- `(rest or "").split(_SEP, 1)[0] or self._image_provider_name`
abbrev before_colon : String → Option (String × String) → String
before_colon s none = s
before_colon s (some (a, b)) = a

abbrev pub or_text : String → String → String
or_text s t = if str_eq s "" then t else s

abbrev pub provider_of : Composite → String → String
provider_of c rest = or_text (before_colon rest (partition rest)) c.image_provider_name

abbrev pub not_configured : String → String → ComfyStatus
not_configured prompt_id provider = failed_status prompt_id (join provider "_not_configured")

-- `_decode`, and the status of what it finds. A whole identifier without a colon may be the tag itself.
abbrev pub status_of : Composite → String → Option (String × String) → ComfyStatus
status_of c prompt_id none =
    if str_eq prompt_id "notconfigured"
    then not_configured prompt_id c.image_provider_name
    else failed_status prompt_id "unknown_prompt_id"
status_of c prompt_id (some (tag, rest)) =
    if str_eq tag "notconfigured"
    then not_configured prompt_id (provider_of c rest)
    else if str_eq tag "comfyui"
    then asked_with prompt_id (some c.comfyui) rest
    else if str_eq tag "gemini"
    then asked_with prompt_id c.gemini rest
    else failed_status prompt_id "unknown_prompt_id"

unfoldable pub get_status : Composite → String → ComfyStatus
get_status c prompt_id = status_of c prompt_id (partition prompt_id)

abbrev and_health : Bool → Option Client → Bool
and_health ok none = ok
and_health ok (some gemini) = ok && gemini.health

unfoldable pub health : Composite → Bool
health c = and_health c.comfyui.health c.gemini

abbrev pub adapter_call : Option Client → String → Option (Client × String)
adapter_call none rest = none
adapter_call (some adapter) rest = some (adapter, rest)

-- `cancel` of what `_decode` finds
abbrev cancel_of : Composite → Option (String × String) → Option (Client × String)
cancel_of c none = none
cancel_of c (some (tag, rest)) =
    if str_eq tag "notconfigured"
    then none
    else if str_eq tag "comfyui"
    then some (c.comfyui, rest)
    else if str_eq tag "gemini"
    then adapter_call c.gemini rest
    else none

-- `cancel`: the backend on which it is called, and with which identifier.
unfoldable pub cancel : Composite → String → Option (Client × String)
cancel c prompt_id = cancel_of c (partition prompt_id)
