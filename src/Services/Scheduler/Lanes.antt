-- ===== src/Services/Scheduler/Lanes.antt =====
-- The two lanes of a tick: their capacities and their active jobs.
use imagin.Prelude.{
  ℕ, ◌+◌, ◌-◌, ◌≤◌, max, String, ◌≡◌, refl, inl, inr, true, false, Option, none, some, List, arith,
  leb, Bool-cases, length, length-append, contains,
}
use imagin.Config.{Settings}
use imagin.Jobs.Registry.{kinds_for_backend}
use imagin.Jobs.Registry.Kinds.{backends_disjoint}
use imagin.Queue.{JobQueue}
use imagin.Queue.Store.Unique.{IsUnique}
use imagin.Queue.Counts.{count_active}
use imagin.Queue.Claim.Lanes.{leased-active, leased-other}
use imagin.Queue.Calls.Keys.{leased-IsUnique}
use imagin.Services.Scheduler.{
  Turn, any_online, is_empty, comfy_slots, comfy_budget, reserve_capacity, claim_for_backend, tick,
}

abbrev pub lane : String → JobQueue → ℕ
lane backend = count_active (some (kinds_for_backend backend))

comfy_not_gemini :
    (kind : String)
    → contains kind (kinds_for_backend "comfyui") ≡ true
    → contains kind (kinds_for_backend "gemini") ≡ false
comfy_not_gemini kind h = ground (arith, backends_disjoint kind)

claim-own :
    (s : Settings) (t : Turn) (backend : String) (capacity : ℕ) (q : JobQueue)
    → IsUnique q.jobs
    → let r = claim_for_backend s t backend capacity q in
      (lane backend r.0 ≡ lane backend q + length r.1) × (length r.1 ≤ capacity)
unfolding claim_for_backend count_active
claim-own s t backend capacity q u = elim (Bool-cases (leb capacity 0)) [
  | inl e ↦ rw e (omega arith, omega arith)
  | inr e ↦ rw e (
      leased-active t.now t.stamp_time capacity t.owner t.lease (kinds_for_backend backend)
        s.max_active_jobs_per_user q.jobs u)
]

claim-other :
    (s : Settings) (t : Turn) (backend other : String) (capacity : ℕ) (q : JobQueue)
    → ((kind : String)
        → contains kind (kinds_for_backend backend) ≡ true
        → contains kind (kinds_for_backend other) ≡ false)
    → IsUnique q.jobs
    → lane other (claim_for_backend s t backend capacity q).0 ≡ lane other q
unfolding claim_for_backend count_active
claim-other s t backend other capacity q d u = elim (Bool-cases (leb capacity 0)) [
  | inl e ↦ rw e
  | inr e ↦ rw e (
      leased-other t.now t.stamp_time capacity t.owner t.lease (kinds_for_backend backend)
        s.max_active_jobs_per_user q.jobs (kinds_for_backend other) d u)
]

claim-IsUnique :
    (s : Settings) (t : Turn) (backend : String) (capacity : ℕ) (q : JobQueue)
    → IsUnique q.jobs
    → IsUnique (claim_for_backend s t backend capacity q).0.jobs
unfolding claim_for_backend
claim-IsUnique s t backend capacity q u = elim (Bool-cases (leb capacity 0)) [
  | inl e ↦ rw e u
  | inr e ↦ rw e (
      leased-IsUnique t.now t.stamp_time capacity t.owner t.lease (some (kinds_for_backend backend))
        s.max_active_jobs_per_user q.jobs u)
]

reserve_bounds :
    (s : Settings) (workers : Option (List String)) (q : JobQueue)
    → ((reserve_capacity s workers q).comfyui ≤ comfy_slots s - lane "comfyui" q)
      × ((reserve_capacity s workers q).gemini ≡ s.default_gemini_active_slots - lane "gemini" q)
unfolding reserve_capacity comfy_budget
reserve_bounds s none q = (omega arith, refl)
reserve_bounds s (some rows) q = (ground arith, refl)

-- Where no two jobs share an identifier, after a tick the active jobs of each backend are at most
-- its slots, or at most what they were before where that was more; and they have grown by exactly
-- the jobs that the tick hands on to be dispatched.
pub tick_lanes :
    (s : Settings) (t u : Turn) (workers : Option (List String)) (q : JobQueue)
    → IsUnique q.jobs
    → let r = tick s t u workers q in
      (lane "comfyui" r.0 ≤ max (comfy_slots s) (lane "comfyui" q))
      × (lane "gemini" r.0 ≤ max s.default_gemini_active_slots (lane "gemini" q))
      × (lane "comfyui" r.0 + lane "gemini" r.0 ≡ lane "comfyui" q + lane "gemini" q + length r.1)
unfolding tick
tick_lanes s t u workers q uq =
    let capacity = reserve_capacity s workers q in
    let bounds = reserve_bounds s workers q in
    let comfy = claim_for_backend s t "comfyui" capacity.comfyui q in
    let gemini = claim_for_backend s u "gemini" capacity.gemini comfy.0 in
    let u1 = claim-IsUnique s t "comfyui" capacity.comfyui q uq in
    let own1 = claim-own s t "comfyui" capacity.comfyui q uq in
    let own2 = claim-own s u "gemini" capacity.gemini comfy.0 u1 in
    let other1 = claim-other s t "comfyui" "gemini" capacity.comfyui q comfy_not_gemini uq in
    let other2 = claim-other s u "gemini" "comfyui" capacity.gemini comfy.0 backends_disjoint u1 in
    (omega arith, omega arith, omega (arith, length-append comfy.1 gemini.1))

-- With workers in the table and none of them online, and no two jobs with one identifier, a tick
-- claims nothing for ComfyUI.
pub tick_offline :
    (s : Settings) (t u : Turn) (rows : List String) (q : JobQueue)
    → IsUnique q.jobs
    → is_empty rows ≡ false
    → any_online rows ≡ false
    → lane "comfyui" (tick s t u (some rows) q).0 ≡ lane "comfyui" q
unfolding tick reserve_capacity comfy_budget
tick_offline s t u rows q uq e o =
    let capacity = reserve_capacity s (some rows) q in
    let comfy = claim_for_backend s t "comfyui" capacity.comfyui q in
    let u1 = claim-IsUnique s t "comfyui" capacity.comfyui q uq in
    let own1 = claim-own s t "comfyui" capacity.comfyui q uq in
    let none_left : capacity.comfyui ≡ 0 = ground arith in
    let other2 = claim-other s u "gemini" "comfyui" capacity.gemini comfy.0 backends_disjoint u1 in
    omega arith
