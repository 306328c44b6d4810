-- ===== src/Comfy/Live/Server.antt =====
-- `submit` and `get_status` of backend/app/adapters/comfyui/live.py. What the server answers, and what
-- `_fetch_and_store_outputs` makes of a history entry, are values of `Server`; an exception of HTTP
-- or of a reply that is no dictionary is a failed answer.
pub mod Lost
use imagin.Prelude.{
  ℕ, String, Bool, false, Option, none, some, List, [], ◌∷◌, str_eq, if◌then◌else◌, contains,
}
use imagin.Prelude.Parts.{join, with_colon, partition}
use imagin.Prelude.Json.{Json, Items, Fields, string, array, object, nil, end, field, get, truthy}
use imagin.Prelude.Python.{Python, str}
use imagin.Comfy.{ComfyStatus, Submitted, accepted, raised, failed_status}
use imagin.Comfy.Live.{LiveClient, Result, done, failed, prompt_of, build_prompt_graph}

pub record Server : Type 0 where
  -- POST /prompt, GET /history/{prompt_id}
  pub post_prompt : Fields → Result Fields
  pub history : String → Result Fields
  -- the identifiers of `queue_running` and `queue_pending` of GET /queue
  pub queue : Result (List String)
  -- `_fetch_and_store_outputs`
  pub fetch_and_store_outputs : Fields → Result Items

-- `self._resolved`, the newest first
abbrev pub Resolved : Type 0
Resolved = List (String × ComfyStatus)

abbrev pub cached : String → Resolved → Option ComfyStatus
cached prompt_id [] = none
cached prompt_id ((p, status) ∷ rest) =
    if str_eq p prompt_id then some status else cached prompt_id rest

abbrev pub local_fail_prefix : String
local_fail_prefix = "localfail:"

-- `f"{_LOCAL_FAIL_PREFIX}{uuid.uuid4().hex}:{reason}"`
unfoldable pub local_failure : String → String → String
local_failure hex reason = join local_fail_prefix (with_colon hex reason)

-- `_sanitized_error`
unfoldable pub sanitized_error : String → String
sanitized_error name = join "comfy_live_error:" name

-- The rest after the prefix, where the text starts with it.
unfoldable pub after_prefix : String → String → Option String
after_prefix Prim.Native.String.[] s = some s
after_prefix (Prim.Native.String.◌∷◌ c p) Prim.Native.String.[] = none
after_prefix (Prim.Native.String.◌∷◌ c p) (Prim.Native.String.◌∷◌ d s) =
    if str_eq (Prim.Native.String.◌∷◌ c "") (Prim.Native.String.◌∷◌ d "")
    then after_prefix p s
    else none

-- A local failure: its identifier, and the entry for the process that saw it.
abbrev pub lost : String → String → Resolved → Submitted × Resolved
lost hex reason resolved = (
  accepted (local_failure hex reason),
  (local_failure hex reason, failed_status (local_failure hex reason) reason) ∷ resolved,
)

module _ (py : Python) where
  -- `str(data["prompt_id"])`
  abbrev pub prompt_id_of : String → Resolved → Option Json → Submitted × Resolved
  prompt_id_of hex resolved none = lost hex (sanitized_error "KeyError") resolved
  prompt_id_of hex resolved (some v) = (accepted (str py v), resolved)

  abbrev pub posted : String → Resolved → Result Fields → Submitted × Resolved
  posted hex resolved (done d) = prompt_id_of hex resolved (get "prompt_id" d)
  posted hex resolved (failed e) = lost hex (sanitized_error e) resolved

  abbrev pub submitted :
      Server → LiveClient → String → String → Result Fields → Resolved → Submitted × Resolved
  submitted server c prompt hex (failed e) resolved = (raised e, resolved)
  submitted server c prompt hex (done graph) resolved =
      if str_eq prompt ""
      then lost hex "empty_prompt" resolved
      else posted hex resolved (
          server.post_prompt
            (field "prompt" (object graph) (field "client_id" (string c.client_id) end)))

  -- `draw`, `prefix` and `hex` are the random identifiers.
  unfoldable pub submit :
      Server → LiveClient → Fields → ℕ → String → String → Resolved → Submitted × Resolved
  submit server c payload draw prefix hex resolved =
      submitted server c (prompt_of py payload) hex (build_prompt_graph py c payload prefix draw)
        resolved

-- A status with no outputs and no error.
abbrev pub bare_status : String → String → ComfyStatus
bare_status prompt_id state = record {
  prompt_id = prompt_id;
  state = state;
  outputs = none;
  error = none;
}

-- `entry.get("status") or {}`; `none` is the exception for another value.
abbrev fields_or_empty : Option Json → Option Fields
fields_or_empty none = some end
fields_or_empty (some (object d)) = some d
fields_or_empty (some v) = if truthy v then none else some end

abbrev is_error : Option Json → Bool
is_error (some (string s)) = str_eq s "error"
is_error _ = false

abbrev kept : ComfyStatus → Resolved → ComfyStatus × Resolved
kept status resolved = (status, (status.prompt_id, status) ∷ resolved)

abbrev stored_status : String → Result Items → Resolved → ComfyStatus × Resolved
stored_status p (failed e) resolved = (bare_status p "running", resolved)
stored_status p (done nil) resolved = kept (failed_status p "comfy_no_output_image") resolved
stored_status p (done outputs) resolved =
    kept (record (bare_status p "succeeded") { outputs = some (array outputs) }) resolved

abbrev entry_status : Server → String → Fields → Option Fields → Resolved → ComfyStatus × Resolved
entry_status server p entry none resolved = (bare_status p "running", resolved)
entry_status server p entry (some info) resolved =
    if is_error (get "status_str" info)
    then kept (failed_status p "comfy_execution_error") resolved
    else stored_status p (server.fetch_and_store_outputs entry) resolved

-- In the queue, or unknown.
abbrev queue_status : String → Result (List String) → ComfyStatus
queue_status p (failed e) = bare_status p "running"
queue_status p (done ids) = bare_status p (if contains p ids then "running" else "unknown")

abbrev history_status : Server → String → Option Json → Resolved → ComfyStatus × Resolved
history_status server p none resolved = (queue_status p server.queue, resolved)
history_status server p (some (object entry)) resolved =
    entry_status server p entry (fields_or_empty (get "status" entry)) resolved
history_status server p (some v) resolved = (bare_status p "running", resolved)

abbrev polled : Server → String → Result Fields → Resolved → ComfyStatus × Resolved
polled server p (failed e) resolved = (bare_status p "running", resolved)
polled server p (done history) resolved = history_status server p (get p history) resolved

-- `reason or "local_failure"` of the part after the colon
abbrev pub reason_of : Option (String × String) → String
reason_of none = "local_failure"
reason_of (some (hex, reason)) = if str_eq reason "" then "local_failure" else reason

abbrev asked : Server → String → Option ComfyStatus → Resolved → ComfyStatus × Resolved
asked server p (some status) resolved = (status, resolved)
asked server p none resolved = polled server p (server.history p) resolved

abbrev pub known : Server → String → Option String → Resolved → ComfyStatus × Resolved
known server p (some rest) resolved = (failed_status p (reason_of (partition rest)), resolved)
known server p none resolved = asked server p (cached p resolved) resolved

unfoldable pub get_status : Server → String → Resolved → ComfyStatus × Resolved
get_status server p resolved = known server p (after_prefix local_fail_prefix p) resolved

-- What `cancel` sends: POST /queue with the identifier, POST /interrupt, or nothing.
pub data CancelCall : Type 0 where
  deletes : String → CancelCall
  interrupts : CancelCall
  sends_nothing : CancelCall

-- From the identifiers of `queue_pending` and `queue_running`.
abbrev cancel_call : String → Result (List String × List String) → CancelCall
cancel_call p (failed e) = sends_nothing
cancel_call p (done (pending, running)) =
    if contains p pending
    then deletes p
    else if contains p running
    then interrupts
    else sends_nothing

-- `self._resolved.pop(prompt_id, None)`
unfoldable pub forget : String → Resolved → Resolved
forget p [] = []
forget p ((q, status) ∷ rest) = if str_eq q p then forget p rest else (q, status) ∷ forget p rest

unfoldable pub cancel :
    Result (List String × List String) → String → Resolved → CancelCall × Resolved
cancel queue p resolved = (cancel_call p queue, forget p resolved)
