-- ===== src/Chat/Confirm/Same.antt =====
-- The job that requests on a pending action are told of, backend/app/api/v1/chat_router.py.
use imagin.Prelude.{
  ◌==◌, ==_iff, ℕ, zero, suc, ◌≤◌, ◌≡◌, refl, String, Bool, true, false, Option, none, some, List,
  [], ◌∷◌, str_eq, if◌then◌else◌, arith, All, Bool-cases, inl, inr, ◌⊎◌,
}
use imagin.Chat.PendingActions.{
  PendingActionSnapshot, ConfirmOutcome, ok, not_found, wrong_owner, already_confirmed, cancelled,
  expired, params_changed, evaluate_confirmation, evaluate_cancellation,
}
use imagin.Chat.Confirm.{
  Answer, executed, replayed, rejected, being_processed, cancel_accepted, Admission, job,
  no_capacity, other_error, Phase, confirming, updating, rereading, admitting, writing, cancelling,
  clearing, answered, Request, World, step, step_at, run, after, is_open, evaluated,
  cancel_evaluated, admitted, reply, reread,
}
use imagin.Chat.Confirm.Once.{admitting_now, after-IsWithin, start-IsWithin, WorldIsWithin}

-- The job that the request has, or is told of.
abbrev pub job_of : Phase → Option String
job_of (writing id) = some id
job_of (answered (executed id)) = some id
job_of (answered (replayed id)) = some id
job_of _ = none

-- No other job than this one.
abbrev pub Only : String → Option String → Type 0
Only id none = Unit
Only id (some j) = j ≡ id

abbrev pub OnlyIn : String → List Request → Type 0
OnlyIn id qs = All (λ q. Only id (job_of q.phase)) qs

reply-Only :
    (id : String) (j : Option String) (x : Answer)
    → Only id j
    → job_of (answered x) ≡ none
    → Only id (job_of (reply j x))
reply-Only id none x h e = rw e tt
reply-Only id (some j) x h e = h

evaluated-Only :
    (id : String) (o : ConfirmOutcome) (j : Option String)
    → Only id j
    → Only id (job_of (evaluated o j))
evaluated-Only id ok j h = tt
evaluated-Only id not_found j h = tt
evaluated-Only id wrong_owner j h = tt
evaluated-Only id already_confirmed j h = reply-Only id j (rejected already_confirmed) h refl
evaluated-Only id cancelled j h = tt
evaluated-Only id expired j h = tt
evaluated-Only id params_changed j h = tt

clears-Only :
    (id : String) (b : Bool) → Only id (job_of (if b then clearing else answered cancel_accepted))
clears-Only id true = tt
clears-Only id false = tt

cancel_evaluated-Only :
    (id : String) (o : ConfirmOutcome) (row : PendingActionSnapshot)
    → Only id (job_of (cancel_evaluated o row))
cancel_evaluated-Only id not_found row = tt
cancel_evaluated-Only id wrong_owner row = tt
cancel_evaluated-Only id already_confirmed row = tt
cancel_evaluated-Only id ok row = clears-Only id (str_eq row.status "pending")
cancel_evaluated-Only id cancelled row = clears-Only id (str_eq row.status "pending")
cancel_evaluated-Only id expired row = clears-Only id (str_eq row.status "pending")
cancel_evaluated-Only id params_changed row = clears-Only id (str_eq row.status "pending")

reread-Only :
    (id : String) (row : PendingActionSnapshot)
    → Only id row.resulting_job_id
    → Only id (job_of (reread row))
reread-Only id row h = elim (Bool-cases (str_eq row.status "confirmed")) [
  | inl e ↦ rw e (reply-Only id row.resulting_job_id being_processed h refl)
  | inr e ↦ rw e tt
]

-- The job that an admission answers, if it admits one.
abbrev admits : Admission → Option String
admits (job id) = some id
admits _ = none

admitted-Only : (id : String) (a : Admission) → Only id (admits a) → Only id (job_of (admitted a))
admitted-Only id (job j) h = h
admitted-Only id no_capacity h = tt
admitted-Only id other_error h = tt

-- Only a step that counts an admission hears its answer.
abbrev Hears : String → Admission → ℕ → ℕ → Type 0
Hears id a before after = (after ≡ before) ⊎ Only id (admits a)

step-Only :
    (id : String) (a : Admission) (row : PendingActionSnapshot) (n : ℕ) (q : Request) (p : Phase)
    → Only id row.resulting_job_id
    → Only id (job_of p)
    → Hears id a n (step a row n q p).1
    → let r = step a row n q p in Only id r.0.resulting_job_id × Only id (job_of r.2)
unfolding step
step-Only id a row n q confirming w h x = (
  w,
  evaluated-Only id (evaluate_confirmation (some row) q.user_id q.now none) row.resulting_job_id w,
)
step-Only id a row n q updating w h x = elim (Bool-cases (is_open row q.now)) [
  | inl e ↦ rw e (w, tt)
  | inr e ↦ rw e (w, tt)
]
step-Only id a row n q rereading w h x = (w, reread-Only id row w)
step-Only id a row n q admitting w h (inl e) = absurd (omega arith)
step-Only id a row n q admitting w h (inr x) = (w, admitted-Only id a x)
step-Only id a row n q (writing j) w h x = (h, h)
step-Only id a row n q cancelling w h x =
    (w, cancel_evaluated-Only id (evaluate_cancellation (some row) q.user_id) row)
step-Only id a row n q clearing w h x = elim (Bool-cases (str_eq row.status "pending")) [
  | inl e ↦ rw e (w, tt)
  | inr e ↦ rw e (w, tt)
]
step-Only id a row n q (answered y) w h x = (w, h)

step_at-Only :
    (id : String) (i : ℕ) (a : Admission) (row : PendingActionSnapshot) (n : ℕ) (qs : List Request)
    → Only id row.resulting_job_id
    → OnlyIn id qs
    → Hears id a n (step_at i a row n qs).1
    → let r = step_at i a row n qs in Only id r.0.resulting_job_id × OnlyIn id r.2
unfolding step_at
step_at-Only id i a row n [] w h x = (w, tt)
step_at-Only id zero a row n (q ∷ qs) w (here, rest) x =
    let (written, told) = step-Only id a row n q q.phase w here x in (written, (told, rest))
step_at-Only id (suc i) a row n (q ∷ qs) w (here, rest) x =
    let (written, told) = step_at-Only id i a row n qs w rest x in (written, (here, told))

step_grows :
    (a : Admission) (row : PendingActionSnapshot) (n : ℕ) (q : Request) (p : Phase)
    → n ≤ (step a row n q p).1
unfolding step
step_grows a row n q confirming = omega arith
step_grows a row n q updating = elim (Bool-cases (is_open row q.now)) [
  | inl e ↦ rw e (omega arith)
  | inr e ↦ rw e (omega arith)
]
step_grows a row n q rereading = omega arith
step_grows a row n q admitting = omega arith
step_grows a row n q (writing j) = omega arith
step_grows a row n q cancelling = omega arith
step_grows a row n q clearing = omega arith
step_grows a row n q (answered y) = omega arith

step_at_grows :
    (i : ℕ) (a : Admission) (row : PendingActionSnapshot) (n : ℕ) (qs : List Request)
    → n ≤ (step_at i a row n qs).1
unfolding step_at
step_at_grows i a row n [] = omega arith
step_at_grows zero a row n (q ∷ qs) = step_grows a row n q q.phase
step_at_grows (suc i) a row n (q ∷ qs) = step_at_grows i a row n qs

-- No other job than this one is in the row, or known to a request.
abbrev Knows : String → World → Type 0
Knows id w = Only id w.row.resulting_job_id × OnlyIn id w.requests

-- No job before the first admission, and one at most after it.
record IsAgreed (w : World) : Type 0 where
  pub unknown : w.admissions ≡ 0 → (id : String) → Knows id w
  pub known : (id : String) × Knows id w

after-Knows :
    (id : String) (i : ℕ) (a : Admission) (w : World)
    → Knows id w
    → Hears id a w.admissions (after i a w).admissions
    → Knows id (after i a w)
after-Knows id i a w (row, told) x = step_at-Only id i a w.row w.admissions w.requests row told x

abbrev heard : Admission → String
heard (job id) = id
heard _ = ""

hears_own : (a : Admission) → Only (heard a) (admits a)
hears_own (job id) = refl
hears_own no_capacity = tt
hears_own other_error = tt

after-IsAgreed :
    (i : ℕ) (a : Admission) (w : World)
    → (after i a w).admissions ≤ 1
    → IsAgreed w
    → IsAgreed (after i a w)
after-IsAgreed i a w le h =
    let grows = step_at_grows i a w.row w.admissions w.requests in
    record {
      unknown = λ none_yet id.
          after-Knows id i a w (h.unknown (omega (arith, grows, none_yet)) id)
            (inl (omega (arith, grows, none_yet)));
      known = elim (Bool-cases ((after i a w).admissions == w.admissions)) [
        | inl e ↦ (h.known.0, after-Knows h.known.0 i a w h.known.1 (inl ((==_iff _ _).0 e)))
        | inr e ↦
            let first : w.admissions ≡ 0 = ground (arith, grows, le) in
            (heard a, after-Knows (heard a) i a w (h.unknown first (heard a)) (inr (hears_own a)))
      ];
    }

run-IsAgreed :
    (schedule : List (ℕ × Admission)) (w : World)
    → WorldIsWithin w
    → IsAgreed w
    → IsAgreed (run schedule w)
unfolding run
run-IsAgreed [] w b h = h
run-IsAgreed ((i, a) ∷ rest) w b h =
    let next = after-IsWithin i a w b in
    run-IsAgreed rest (after i a w) next (after-IsAgreed i a w (omega (arith, next.0)) h)

-- No request has a job or is told of one.
abbrev pub NoneKnown : World → Type 0
NoneKnown w = (w.row.resulting_job_id ≡ none) × All (λ q. job_of q.phase ≡ none) w.requests

none-Only : (id : String) (qs : List Request) → All (λ q. job_of q.phase ≡ none) qs → OnlyIn id qs
none-Only id [] h = tt
none-Only id (q ∷ qs) (here, rest) = (rw here tt, none-Only id qs rest)

-- Requests to confirm or to cancel one pending action run side by side, and their steps come in any
-- order. If at first no job is known and none is about to be admitted, then there is one job such that
-- no request is told of another or writes another, and the row holds no other.
pub run-same :
    (schedule : List (ℕ × Admission)) (w : World)
    → w.admissions ≡ 0
    → admitting_now w.requests ≡ 0
    → NoneKnown w
    → (id : String) × Only id (run schedule w).row.resulting_job_id
      × OnlyIn id (run schedule w).requests
run-same schedule w h g (written, told) =
    let unknown : (id : String) → Knows id w =
      λ id. (rw written tt, none-Only id w.requests told) in
    let agreed =
      run-IsAgreed schedule w (start-IsWithin w h g)
        (record { unknown = λ e id. unknown id; known = ("", unknown "") }) in
    (agreed.known.0, agreed.known.1.0, agreed.known.1.1)
