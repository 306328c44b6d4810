-- ===== src/Comfy/MultiWorker.antt =====
-- backend/app/adapters/comfyui/multi_worker.py: jobs go round-robin to the workers, and the index of
-- the worker is part of the prompt identifier.
pub mod RoundTrip
mod Examples
use imagin.Prelude.{
  ℕ, zero, suc, ◌+◌, ◌-◌, ◌%◌, String, Bool, true, false, Option, none, some, List, [], ◌∷◌, leb,
  if◌then◌else◌, length,
}
use imagin.Prelude.Int.{ℤ, pos, negsuc}
use imagin.Prelude.Json.{Fields}
use imagin.Prelude.Parts.{with_colon, partition}
use imagin.Prelude.Python.{Python, Converted, value}
use imagin.Comfy.{Client, ComfyStatus, Submitted, accepted, raised, failed_status}

pub record MultiWorker : Type 0 where
  pub workers : List Client
  pub next_index : ℕ

-- `__init__`; `none` is the `ValueError` for an empty list.
unfoldable pub init : List Client → Option MultiWorker
init [] = none
init (w ∷ ws) = some (record { workers = w ∷ ws; next_index = 0 })

unfoldable pub get_elem? : List Client → ℕ → Option Client
get_elem? [] i = none
get_elem? (x ∷ xs) zero = some x
get_elem? (x ∷ xs) (suc i) = get_elem? xs i

-- `self._workers[index]`: a negative index counts from the end; `none` is `IndexError`.
unfoldable pub worker_at : List Client → ℤ → Option Client
worker_at ws (pos n) = get_elem? ws n
worker_at ws (negsuc n) = if leb (suc n) (length ws) then get_elem? ws (length ws - suc n) else none

-- `_pick_worker`: the index, and the client that will pick the next one.
unfoldable pub pick_worker : MultiWorker → ℕ × MultiWorker
pick_worker m = (m.next_index % length m.workers, record m { next_index = m.next_index + 1 })

module _ (py : Python) where
  abbrev pub composite_id : ℕ → String → String
  composite_id index real_id = with_colon (py.print_int (pos index)) real_id

  abbrev pub tagged : ℕ → Submitted → Submitted
  tagged index (accepted p) = accepted (composite_id index p)
  tagged index (raised e) = raised e

  abbrev pub submit_at : Option Client → ℕ → Fields → Option String → Submitted
  submit_at none index payload kind = raised "IndexError"
  submit_at (some w) index payload kind = tagged index (w.submit payload kind)

  unfoldable pub submit : MultiWorker → Fields → Option String → Submitted × MultiWorker
  submit m payload kind =
      let (index, m') = pick_worker m in
      (submit_at (get_elem? m.workers index) index payload kind, m')

  -- `None` is given back with the whole identifier.
  abbrev found_worker : Option Client → String → String → Option Client × String
  found_worker none prompt_id real_id = (none, prompt_id)
  found_worker (some w) prompt_id real_id = (some w, real_id)

  abbrev resolve_index : List Client → String → Converted ℤ → String → Option Client × String
  resolve_index ws prompt_id (value index) real_id =
      found_worker (worker_at ws index) prompt_id real_id
  resolve_index ws prompt_id _ real_id = (none, prompt_id)

  -- `_resolve`: the worker and its own identifier for the prompt.
  unfoldable pub resolve : List Client → String → Option Client × String
  resolve ws prompt_id = elim (partition prompt_id) [
    | none ↦ (none, prompt_id)
    | some (index_str, real_id) ↦ resolve_index ws prompt_id (py.int_of_text index_str) real_id
  ]

  abbrev pub wrapped : String → ComfyStatus → ComfyStatus
  wrapped prompt_id status = record {
    prompt_id = prompt_id;
    state = status.state;
    outputs = status.outputs;
    error = status.error;
  }

  abbrev status_from : String → Option Client × String → ComfyStatus
  status_from prompt_id (none, real_id) = failed_status prompt_id "unknown_prompt_id"
  status_from prompt_id (some w, real_id) = wrapped prompt_id (w.get_status real_id)

  unfoldable pub get_status : List Client → String → ComfyStatus
  get_status ws prompt_id = status_from prompt_id (resolve ws prompt_id)

-- `health`: at least one worker is healthy.
unfoldable pub health : List Client → Bool
health [] = false
health (w ∷ ws) = if w.health then true else health ws

module _ (py : Python) where
  abbrev pub call_of : Option Client × String → Option (Client × String)
  call_of (none, real_id) = none
  call_of (some w, real_id) = some (w, real_id)

  -- `cancel`: the worker on which it is called, and with which identifier.
  unfoldable pub cancel : List Client → String → Option (Client × String)
  cancel ws prompt_id = call_of (resolve py ws prompt_id)
