-- ===== src/Comfy.antt =====
-- The clients of image backends, backend/app/adapters: what every client answers, and the clients
-- that pass calls on to others. A client that is not in this repository's source, or only talks to
-- the network, is a value of `Client`.
pub mod MultiWorker
pub mod Live
pub mod Routing
use imagin.Prelude.{String, Bool, Option, none, some, ◌≡◌}
use imagin.Prelude.Json.{Json, Fields}

-- `ComfyStatus` of backend/app/adapters/comfyui/__init__.py; `outputs` is a JSON array.
pub record ComfyStatus : Type 0 where
  pub prompt_id : String
  pub state : String
  pub outputs : Option Json
  pub error : Option String

-- What `submit` does: a prompt identifier, or an exception of the named type.
pub data Submitted : Type 0 where
  accepted : String → Submitted
  raised : String → Submitted

-- The answers of a client at one time.
pub record Client : Type 0 where
  pub submit : Fields → Option String → Submitted
  pub get_status : String → ComfyStatus
  pub health : Bool

-- `ComfyStatus(prompt_id=prompt_id, state="failed", error=…)`
abbrev pub failed_status : String → String → ComfyStatus
failed_status prompt_id error = record {
  prompt_id = prompt_id;
  state = "failed";
  outputs = none;
  error = some error;
}

pub accepted_injective : {a b : String} → accepted a ≡ accepted b → a ≡ b
accepted_injective e = cc
