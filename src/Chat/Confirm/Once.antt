-- ===== src/Chat/Confirm/Once.antt =====
-- A pending action is paid for once, backend/app/api/v1/chat_router.py.
use mathlib.Core.Path.{subst}
use imagin.Prelude.{
  ℕ, zero, suc, ◌+◌, ◌≤◌, ◌≡◌, refl, String, Bool, true, false, Option, none, some, List, [], ◌∷◌,
  str_eq, if◌then◌else◌, arith, Bool-cases, inl, inr,
}
use imagin.Chat.PendingActions.{
  PendingActionSnapshot, ConfirmOutcome, ok, not_found, wrong_owner, already_confirmed, cancelled,
  expired, params_changed, evaluate_confirmation, evaluate_cancellation,
}
use imagin.Chat.Confirm.{
  Answer, rejected, being_processed, cancel_accepted, job, no_capacity, other_error, reply, reread,
  after, Admission, Phase, confirming, updating, rereading, admitting, writing, cancelling,
  clearing, answered, Request, World, step, step_at, run, is_open, evaluated, cancel_evaluated,
  admitted,
}

abbrev pub is_admitting : Phase → ℕ
is_admitting admitting = 1
is_admitting _ = 0

-- The requests that are about to call `admit_generation_job`.
abbrev pub admitting_now : List Request → ℕ
admitting_now [] = 0
admitting_now (q ∷ qs) = is_admitting q.phase + admitting_now qs

-- The calls of the admission, made or about to be: at most one, and none for a row that is pending.
abbrev pub IsWithin : PendingActionSnapshot → ℕ → Type 0
IsWithin row spent = (spent ≤ 1) × (str_eq row.status "pending" ≡ true → spent ≡ 0)

reply-zero : (j : Option String) (x : Answer) → is_admitting (reply j x) ≡ 0
reply-zero none x = refl
reply-zero (some id) x = refl

evaluated-zero : (o : ConfirmOutcome) (j : Option String) → is_admitting (evaluated o j) ≡ 0
evaluated-zero ok j = refl
evaluated-zero not_found j = refl
evaluated-zero wrong_owner j = refl
evaluated-zero already_confirmed j = reply-zero j (rejected already_confirmed)
evaluated-zero cancelled j = refl
evaluated-zero expired j = refl
evaluated-zero params_changed j = refl

clears-zero : (b : Bool) → is_admitting (if b then clearing else answered cancel_accepted) ≡ 0
clears-zero true = refl
clears-zero false = refl

cancel_evaluated-zero :
    (o : ConfirmOutcome) (row : PendingActionSnapshot) → is_admitting (cancel_evaluated o row) ≡ 0
cancel_evaluated-zero not_found row = refl
cancel_evaluated-zero wrong_owner row = refl
cancel_evaluated-zero already_confirmed row = refl
cancel_evaluated-zero ok row = clears-zero (str_eq row.status "pending")
cancel_evaluated-zero cancelled row = clears-zero (str_eq row.status "pending")
cancel_evaluated-zero expired row = clears-zero (str_eq row.status "pending")
cancel_evaluated-zero params_changed row = clears-zero (str_eq row.status "pending")

reread-zero : (row : PendingActionSnapshot) → is_admitting (reread row) ≡ 0
reread-zero row = elim (Bool-cases (str_eq row.status "confirmed")) [
  | inl e ↦ rw e (reply-zero row.resulting_job_id being_processed)
  | inr e ↦ rw e refl
]

admitted-zero : (a : Admission) → is_admitting (admitted a) ≡ 0
admitted-zero (job id) = refl
admitted-zero no_capacity = refl
admitted-zero other_error = refl

-- A step of one request, where `k` counts the others.
step-IsWithin :
    (a : Admission) (row : PendingActionSnapshot) (n k : ℕ) (q : Request) (p : Phase)
    → IsWithin row (n + (is_admitting p + k))
    → let r = step a row n q p in IsWithin r.0 (r.1 + (is_admitting r.2 + k))
unfolding step
step-IsWithin a row n k q confirming h =
    rw (evaluated-zero (evaluate_confirmation (some row) q.user_id q.now none) row.resulting_job_id)
      h
step-IsWithin a row n k q updating h = elim (Bool-cases (is_open row q.now)) [
  | inl e ↦
      let pending : str_eq row.status "pending" ≡ true = ground arith in
      let none_yet = h.1 pending in rw e (omega (arith, none_yet), λ x. absurd cc)
  | inr e ↦ rw e h
]
step-IsWithin a row n k q rereading h = rw (reread-zero row) h
step-IsWithin a row n k q admitting h =
    rw (admitted-zero a) (omega (arith, h.0), λ x. omega (arith, h.1 x))
step-IsWithin a row n k q (writing id) h = h
step-IsWithin a row n k q cancelling h =
    rw (cancel_evaluated-zero (evaluate_cancellation (some row) q.user_id) row) h
step-IsWithin a row n k q clearing h = elim (Bool-cases (str_eq row.status "pending")) [
  | inl e ↦ rw e (h.0, λ x. absurd cc)
  | inr e ↦ rw e h
]
step-IsWithin a row n k q (answered x) h = h

moved : (row : PendingActionSnapshot) {m n : ℕ} → IsWithin row m → m ≡ n → IsWithin row n
moved row h e = subst (IsWithin row) e h

step_at-IsWithin :
    (i : ℕ) (a : Admission) (row : PendingActionSnapshot) (n k : ℕ) (qs : List Request)
    → IsWithin row (n + (admitting_now qs + k))
    → let r = step_at i a row n qs in IsWithin r.0 (r.1 + (admitting_now r.2 + k))
unfolding step_at
step_at-IsWithin i a row n k [] h = h
step_at-IsWithin zero a row n k (q ∷ qs) h =
    let first =
      step-IsWithin a row n (admitting_now qs + k) q q.phase (moved row h (omega arith)) in
    moved (step a row n q q.phase).0 first (omega arith)
step_at-IsWithin (suc i) a row n k (q ∷ qs) h =
    let later =
      step_at-IsWithin i a row n (is_admitting q.phase + k) qs (moved row h (omega arith)) in
    moved (step_at i a row n qs).0 later (omega arith)

-- The calls of the admission in a world, made or about to be.
abbrev pub WorldIsWithin : World → Type 0
WorldIsWithin w = IsWithin w.row (w.admissions + (admitting_now w.requests + 0))

pub after-IsWithin :
    (i : ℕ) (a : Admission) (w : World) → WorldIsWithin w → WorldIsWithin (after i a w)
after-IsWithin i a w h = step_at-IsWithin i a w.row w.admissions 0 w.requests h

pub start-IsWithin : (w : World) → w.admissions ≡ 0 → admitting_now w.requests ≡ 0 → WorldIsWithin w
start-IsWithin w h g = (omega (arith, h, g), λ x. omega (arith, h, g))

run-IsWithin :
    (schedule : List (ℕ × Admission)) (w : World) → WorldIsWithin w → WorldIsWithin (run schedule w)
unfolding run
run-IsWithin [] w h = h
run-IsWithin ((i, a) ∷ rest) w h = run-IsWithin rest (after i a w) (after-IsWithin i a w h)

-- Whatever requests to confirm or to cancel one pending action run side by side, and in whatever order
-- their steps come, if none of them is about to admit a job and none was admitted: the admission, which
-- starts a paid job, is called at most once.
pub run-once :
    (schedule : List (ℕ × Admission)) (w : World)
    → w.admissions ≡ 0
    → admitting_now w.requests ≡ 0
    → (run schedule w).admissions ≤ 1
run-once schedule w h g =
    let within = run-IsWithin schedule w (start-IsWithin w h g) in omega (arith, within.0)
