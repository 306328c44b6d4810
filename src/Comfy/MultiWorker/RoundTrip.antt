-- ===== src/Comfy/MultiWorker/RoundTrip.antt =====
-- `submit` and `get_status` of backend/app/adapters/comfyui/multi_worker.py together.
use mathlib.Core.Path.{subst}
use imagin.Prelude.{ℕ, ◌%◌, String, ◌≡◌, false, Option, some, List, length, ap, refl, none}
use imagin.Prelude.Int.{ℤ, pos}
use imagin.Prelude.Json.{Fields}
use imagin.Prelude.Parts.{partition-with_colon, has_colon}
use imagin.Prelude.Python.{Python, value}
use imagin.Comfy.{accepted_injective, Client, Submitted, accepted, raised}
use imagin.Comfy.MultiWorker.{
  cancel, call_of, MultiWorker, get_elem?, worker_at, pick_worker, composite_id, submit, resolve,
  wrapped, get_status, found_worker, tagged, status_from, submit_at,
}

-- Python reads back an integer that it printed, and prints it with no colon.
pub record PrintsIntegers (py : Python) : Type 0 where
  pub reads_back : (z : ℤ) → py.int_of_text (py.print_int z) ≡ value z
  pub no_colon : (z : ℤ) → has_colon (py.print_int z) ≡ false

module _ (py : Python) (ints : PrintsIntegers py) where
  resolve-composite_id :
      (ws : List Client) (index : ℕ) (real_id : String) (w : Client)
      → get_elem? ws index ≡ some w
      → resolve py ws (composite_id py index real_id) ≡ (some w, real_id)
  unfolding resolve worker_at
  resolve-composite_id ws index real_id w h =
      rw
        (
          partition-with_colon (py.print_int (pos index)) real_id (ints.no_colon (pos index)),
          resolve,
        )
        (rw (ints.reads_back (pos index))
          (ap (λ o. found_worker py o (composite_id py index real_id) real_id) h))

  abbrev Answers : List Client → ℕ → Fields → Option String → String → Type 0
  Answers ws index payload kind p =
      (w : Client) × (real_id : String) × (get_elem? ws index ≡ some w)
      × (w.submit payload kind ≡ accepted real_id)
      × (get_status py ws p ≡ wrapped py p (w.get_status real_id))
      × (cancel py ws p ≡ some (w, real_id))

  get_status-composite_id :
      (ws : List Client) (index : ℕ) (real_id : String) (w : Client)
      → get_elem? ws index ≡ some w
      → get_status py ws (composite_id py index real_id)
        ≡ wrapped py (composite_id py index real_id) (w.get_status real_id)
  unfolding get_status
  get_status-composite_id ws index real_id w h =
      ap (status_from py (composite_id py index real_id))
        (resolve-composite_id ws index real_id w h)

  cancel-composite_id :
      (ws : List Client) (index : ℕ) (real_id : String) (w : Client)
      → get_elem? ws index ≡ some w
      → cancel py ws (composite_id py index real_id) ≡ some (w, real_id)
  unfolding cancel
  cancel-composite_id ws index real_id w h =
      ap (call_of py) (resolve-composite_id ws index real_id w h)

  from_answer :
      (ws : List Client) (index : ℕ) (payload : Fields) (kind : Option String) (p : String)
      (w : Client)
      → get_elem? ws index ≡ some w
      → (r : Submitted) → w.submit payload kind ≡ r
      → tagged py index r ≡ accepted p
      → Answers ws index payload kind p
  from_answer ws index payload kind p w h (accepted real_id) s e =
      subst (Answers ws index payload kind) (accepted_injective e) (
        w,
        real_id,
        h,
        s,
        get_status-composite_id ws index real_id w h,
        cancel-composite_id ws index real_id w h,
      )
  from_answer ws index payload kind p w h (raised x) s e = cc

  from_worker :
      (ws : List Client) (index : ℕ) (payload : Fields) (kind : Option String) (p : String)
      (o : Option Client)
      → get_elem? ws index ≡ o
      → submit_at py o index payload kind ≡ accepted p
      → Answers ws index payload kind p
  from_worker ws index payload kind p none h e = cc
  from_worker ws index payload kind p (some w) h e =
      from_answer ws index payload kind p w h _ refl e

  -- Where Python reads back the integers that it prints, with no colon in them, and whichever
  -- process asks, as long as it was given the same workers in the same order: the status of a
  -- submitted prompt is what the worker that accepted the submission says of its own identifier,
  -- under the identifier that the submission returned; and a cancellation goes to that worker.
  pub submit-get_status :
      (m : MultiWorker) (payload : Fields) (kind : Option String) (p : String)
      → (submit py m payload kind).0 ≡ accepted p
      → (w : Client) × (real_id : String) × (get_elem? m.workers (m.next_index % length m.workers)
          ≡ some w)
        × (w.submit payload kind ≡ accepted real_id)
        × (get_status py m.workers p ≡ wrapped py p (w.get_status real_id))
        × (cancel py m.workers p ≡ some (w, real_id))
  unfolding submit pick_worker
  submit-get_status m payload kind p h =
      from_worker m.workers (m.next_index % length m.workers) payload kind p _ refl h
