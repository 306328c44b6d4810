-- ===== src/Services/Scheduler.antt =====
-- backend/app/services/scheduler.py: the capacity of each backend, the claims of a tick, and the
-- dispatch of a claimed job. Slots and buffers are not negative.
pub mod Lanes
pub mod Dispatch
use imagin.Prelude.{
  ℕ, ◌+◌, ◌-◌, String, Bool, true, false, not, ◌&&◌, Option, none, some, List, [], ◌∷◌, ◌++◌,
  str_eq, leb, if◌then◌else◌, any,
}
use Prim.Native.String.{◌++◌ as concat}
use imagin.Config.{Settings}
use imagin.Comfy.{Submitted, accepted, raised}
use imagin.Jobs.Registry.{kinds_for_backend}
use imagin.Queue.{JobQueue}
use imagin.Queue.Job.{QueuedJob}
use imagin.Queue.Claim.{claim_next_with_lease}
use imagin.Queue.Counts.{count_active}
use imagin.Queue.Marks.{mark_running, mark_retry_wait, set_prompt_id}

pub record Capacity : Type 0 where
  pub comfyui : ℕ
  pub gemini : ℕ

-- `any(w.status == "online" for w in rows)`
abbrev pub any_online : List String → Bool
any_online = any (λ status. str_eq status "online")

abbrev pub is_empty : List String → Bool
is_empty [] = true
is_empty (_ ∷ _) = false

-- The slots for ComfyUI, with the buffer.
abbrev pub comfy_slots : Settings → ℕ
comfy_slots s = s.default_comfy_active_slots + s.comfy_pending_buffer

-- The budget that the rows of `comfy_workers` leave.
unfoldable pub comfy_budget : List String → ℕ → ℕ → ℕ
comfy_budget rows slots active =
    if not (any_online rows) && not (is_empty rows)
    then 0
    else if is_empty rows
    then slots - active
    else slots - active

-- `_reserve_capacity_by_backend`. The workers are the statuses in the table, `none` where there is
-- no database; `max(0, …)` is subtraction on ℕ.
unfoldable pub reserve_capacity : Settings → Option (List String) → JobQueue → Capacity
reserve_capacity s none q = record {
  comfyui = comfy_slots s - count_active (some (kinds_for_backend "comfyui")) q;
  gemini = s.default_gemini_active_slots - count_active (some (kinds_for_backend "gemini")) q;
}
reserve_capacity s (some rows) q = record {
  comfyui = comfy_budget rows (comfy_slots s) (count_active (some (kinds_for_backend "comfyui")) q);
  gemini = s.default_gemini_active_slots - count_active (some (kinds_for_backend "gemini")) q;
}

-- Who claims, for how long, and the two times at which a claim reads the clock.
pub record Turn : Type 0 where
  pub owner : String
  pub lease : ℕ
  pub now : ℕ
  pub stamp_time : ℕ

-- `_claim_for_backend`: the queue after the claim, and the claimed jobs.
unfoldable pub claim_for_backend :
    Settings → Turn → String → ℕ → JobQueue → JobQueue × List QueuedJob
claim_for_backend s t backend capacity q =
    if leb capacity 0
    then (q, [])
    else let c =
        claim_next_with_lease t.now t.stamp_time capacity t.owner t.lease
          (some (kinds_for_backend backend)) s.max_active_jobs_per_user q.jobs in
      (record q { jobs = c.jobs }, c.claimed)

-- `_tick` up to the dispatch of the claimed jobs: both claims rest on one reservation.
unfoldable pub tick :
    Settings → Turn → Turn → Option (List String) → JobQueue → JobQueue × List QueuedJob
tick s t u workers q =
    let capacity = reserve_capacity s workers q in
    let comfy = claim_for_backend s t "comfyui" capacity.comfyui q in
    let gemini = claim_for_backend s u "gemini" capacity.gemini comfy.0 in
    (gemini.0, comfy.1 ++ gemini.1)

-- `_dispatch` before its `await` of the submission.
unfoldable pub dispatch_start : ℕ → JobQueue → JobQueue
dispatch_start id q = mark_running id q

-- `_dispatch` from there on.
unfoldable pub dispatch_end : ℕ → ℕ → ℕ → Submitted → JobQueue → JobQueue
dispatch_end now draw id (accepted prompt_id) q = set_prompt_id id prompt_id q
dispatch_end now draw id (raised name) q =
    mark_retry_wait now id "worker_unreachable" (some (concat "dispatch_error:" name)) none draw q
