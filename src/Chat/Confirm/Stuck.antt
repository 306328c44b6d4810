-- ===== src/Chat/Confirm/Stuck.antt =====
-- A confirmation whose admission fails, backend/app/api/v1/chat_router.py.
use mathlib.Core.Path.{subst}
use imagin.Prelude.{
  ap, sym, ◌∙◌, eq_iff, ℕ, zero, suc, ◌≡◌, refl, Bool, true, false, none, some, List, [], ◌∷◌,
  str_eq, if◌then◌else◌, All, ◌∙◌, count,
}
use imagin.Chat.PendingActions.{
  PendingActionSnapshot, ConfirmOutcome, ok, not_found, wrong_owner, already_confirmed, cancelled,
  expired, params_changed, evaluate_confirmation, evaluate_cancellation,
}
use imagin.Chat.Confirm.{
  executed, replayed, cancel_accepted, Admission, Phase, confirming, updating, rereading, admitting,
  writing, cancelling, clearing, answered, Request, World, step, step_at, run, after, evaluated,
  cancel_evaluated,
}

-- The request has no job, and is not about to get one.
abbrev pub has_no_job : Phase → Bool
has_no_job admitting = false
has_no_job (writing id) = false
has_no_job (answered (executed id)) = false
has_no_job (answered (replayed id)) = false
has_no_job _ = true

abbrev pub HasNoJob : Request → Type 0
HasNoJob q = has_no_job q.phase ≡ true

-- The row is confirmed, and no job is written in it.
abbrev pub IsStuck : PendingActionSnapshot → Type 0
IsStuck row = (str_eq row.status "confirmed" ≡ true) × (row.resulting_job_id ≡ none)

evaluated-none : (o : ConfirmOutcome) → has_no_job (evaluated o none) ≡ true
evaluated-none ok = refl
evaluated-none not_found = refl
evaluated-none wrong_owner = refl
evaluated-none already_confirmed = refl
evaluated-none cancelled = refl
evaluated-none expired = refl
evaluated-none params_changed = refl

clears-none : (b : Bool) → has_no_job (if b then clearing else answered cancel_accepted) ≡ true
clears-none true = refl
clears-none false = refl

cancel_evaluated-none :
    (o : ConfirmOutcome) (row : PendingActionSnapshot) → has_no_job (cancel_evaluated o row) ≡ true
cancel_evaluated-none not_found row = refl
cancel_evaluated-none wrong_owner row = refl
cancel_evaluated-none already_confirmed row = refl
cancel_evaluated-none ok row = clears-none (str_eq row.status "pending")
cancel_evaluated-none cancelled row = clears-none (str_eq row.status "pending")
cancel_evaluated-none expired row = clears-none (str_eq row.status "pending")
cancel_evaluated-none params_changed row = clears-none (str_eq row.status "pending")

-- A step leaves the row and the admissions as they are, and gives no job.
abbrev Idle : PendingActionSnapshot → ℕ → PendingActionSnapshot × ℕ × Phase → Type 0
Idle row n r = (r.0 ≡ row) × (r.1 ≡ n) × (has_no_job r.2 ≡ true)

not_pending : (row : PendingActionSnapshot) → IsStuck row → str_eq row.status "pending" ≡ false
not_pending row h = ap (λ t. str_eq t "pending") ((eq_iff row.status "confirmed").0 h.0)

step-Idle :
    (a : Admission) (row : PendingActionSnapshot) (n : ℕ) (q : Request) (p : Phase)
    → IsStuck row
    → has_no_job p ≡ true
    → Idle row n (step a row n q p)
unfolding step evaluate_confirmation
step-Idle a row n q confirming s h =
    rw s.1 (refl, refl, evaluated-none (evaluate_confirmation (some row) q.user_id q.now none))
step-Idle a row n q updating s h = rw (not_pending row s) (refl, refl, refl)
step-Idle a row n q rereading s h = rw (s.0, s.1) (refl, refl, refl)
step-Idle a row n q admitting s h = absurd cc
step-Idle a row n q (writing id) s h = absurd cc
step-Idle a row n q cancelling s h =
    (refl, refl, cancel_evaluated-none (evaluate_cancellation (some row) q.user_id) row)
step-Idle a row n q clearing s h = rw (not_pending row s) (refl, refl, refl)
step-Idle a row n q (answered x) s h = (refl, refl, h)

step_at-Idle :
    (i : ℕ) (a : Admission) (row : PendingActionSnapshot) (n : ℕ) (qs : List Request)
    → IsStuck row
    → All HasNoJob qs
    → let r = step_at i a row n qs in (r.0 ≡ row) × (r.1 ≡ n) × All HasNoJob r.2
unfolding step_at
step_at-Idle i a row n [] s h = (refl, refl, tt)
step_at-Idle zero a row n (q ∷ qs) s (here, rest) =
    let (same, count, without) = step-Idle a row n q q.phase s here in
    (same, count, (without, rest))
step_at-Idle (suc i) a row n (q ∷ qs) s (here, rest) =
    let (same, count, without) = step_at-Idle i a row n qs s rest in (same, count, (here, without))

-- Once a pending action is confirmed with no job, as after an admission that answered 429 or failed, and
-- no request is about to admit one: whatever requests come and in whatever order their steps come, the
-- admission is not called again, no job is written in the row, and no request gets a job.
pub run-stuck :
    (schedule : List (ℕ × Admission)) (w : World)
    → IsStuck w.row
    → All HasNoJob w.requests
    → ((run schedule w).admissions ≡ w.admissions)
      × ((run schedule w).row.resulting_job_id ≡ none)
      × All HasNoJob (run schedule w).requests
unfolding run
run-stuck [] w s h = (refl, s.1, h)
run-stuck ((i, a) ∷ rest) w s h =
    let (same, count, without) = step_at-Idle i a w.row w.admissions w.requests s h in
    let (n, j, l) = run-stuck rest (after i a w) (subst IsStuck (sym same) s) without in
    (n ∙ count, j, l)
