-- ===== src/Chat/Confirm.antt =====
-- backend/app/api/v1/chat_router.py: the confirmation and the cancellation of one pending action, as
-- the steps that a request takes between its statements on the database. Requests run side by side;
-- what `admit_generation_job` answers is an argument of the step.
pub mod Once
pub mod Stuck
pub mod Same
mod Examples
use imagin.Prelude.{
  ℕ, zero, suc, ◌+◌, String, Bool, not, ◌&&◌, Option, none, some, List, [], ◌∷◌, str_eq, leb,
  if◌then◌else◌,
}
use imagin.Chat.PendingActions.{
  ConfirmOutcome, ok, not_found, wrong_owner, already_confirmed, cancelled, PendingActionSnapshot,
  evaluate_confirmation, evaluate_cancellation,
}

-- The answer to a request.
pub data Answer : Type 0 where
  -- 200 with the job: of this request, or of the one before
  executed replayed : String → Answer
  -- 404, 409 or 410, for the outcome
  rejected : ConfirmOutcome → Answer
  -- 409, 429 and 500
  being_processed capacity_exceeded failed_to_start : Answer
  -- 200 for a cancellation, and 409 for one that is too late
  cancel_accepted too_late : Answer

-- What `admit_generation_job` answers: a job, `CapacityExceededError`, or another error.
pub data Admission : Type 0 where
  job : String → Admission
  no_capacity : Admission
  other_error : Admission

-- What a request does next.
pub data Phase : Type 0 where
  -- `confirm_pending_action`: read the row, update it, read it again, admit a job, and write its id
  confirming : Phase
  updating : Phase
  rereading : Phase
  admitting : Phase
  writing : String → Phase
  -- `cancel_pending_action`: read the row, update it
  cancelling : Phase
  clearing : Phase
  answered : Answer → Phase

pub record Request : Type 0 where
  pub user_id : String
  pub now : ℕ
  pub phase : Phase

abbrev to : Phase → Request → Request
to p q = record q { phase = p }

-- The row, the number of calls of `admit_generation_job`, and the requests.
pub record World : Type 0 where
  pub row : PendingActionSnapshot
  pub admissions : ℕ
  pub requests : List Request

abbrev pub reply : Option String → Answer → Phase
reply none a = answered a
reply (some id) a = answered (replayed id)

-- After `evaluate_confirmation`
abbrev pub evaluated : ConfirmOutcome → Option String → Phase
evaluated ok job_id = updating
evaluated already_confirmed job_id = reply job_id (rejected already_confirmed)
evaluated outcome job_id = answered (rejected outcome)

-- `status == "pending" and expires_at > now`
abbrev pub is_open : PendingActionSnapshot → ℕ → Bool
is_open row now = str_eq row.status "pending" && not (leb row.expires_at now)

abbrev pub reread : PendingActionSnapshot → Phase
reread row =
    if str_eq row.status "confirmed"
    then reply row.resulting_job_id being_processed
    else answered being_processed

abbrev pub admitted : Admission → Phase
admitted (job id) = writing id
admitted no_capacity = answered capacity_exceeded
admitted other_error = answered failed_to_start

-- After `evaluate_cancellation`
abbrev pub cancel_evaluated : ConfirmOutcome → PendingActionSnapshot → Phase
cancel_evaluated not_found row = answered (rejected not_found)
cancel_evaluated wrong_owner row = answered (rejected wrong_owner)
cancel_evaluated already_confirmed row = answered too_late
cancel_evaluated outcome row =
    if str_eq row.status "pending" then clearing else answered cancel_accepted

abbrev with_status : String → PendingActionSnapshot → PendingActionSnapshot
with_status s row = record row { status = s }

-- One step of a request in its phase: the row, the calls of the admission, and the next phase.
unfoldable pub step :
    Admission → PendingActionSnapshot → ℕ → Request → Phase → PendingActionSnapshot × ℕ × Phase
step a row n q confirming =
    (row, n, evaluated (evaluate_confirmation (some row) q.user_id q.now none) row.resulting_job_id)
step a row n q updating =
    if is_open row q.now then (with_status "confirmed" row, n, admitting) else (row, n, rereading)
step a row n q rereading = (row, n, reread row)
step a row n q admitting = (row, n + 1, admitted a)
step a row n q (writing id) = (record row { resulting_job_id = some id }, n, answered (executed id))
step a row n q cancelling =
    (row, n, cancel_evaluated (evaluate_cancellation (some row) q.user_id) row)
step a row n q clearing = (
  if str_eq row.status "pending" then with_status "cancelled" row else row,
  n,
  answered cancel_accepted,
)
step a row n q (answered x) = (row, n, answered x)

-- A step of the request at the place, if there is one.
unfoldable pub step_at :
    ℕ
    → Admission
    → PendingActionSnapshot
    → ℕ
    → List Request
    → PendingActionSnapshot × ℕ × List Request
step_at i a row n [] = (row, n, [])
step_at zero a row n (q ∷ qs) =
    let (row', n', p) = step a row n q q.phase in (row', n', to p q ∷ qs)
step_at (suc i) a row n (q ∷ qs) = let (row', n', qs') = step_at i a row n qs in (row', n', q ∷ qs')

abbrev pub after : ℕ → Admission → World → World
after i a w =
    let (row, n, qs) = step_at i a w.row w.admissions w.requests in
    record { row = row; admissions = n; requests = qs }

-- The steps in the order of a schedule: which request, and what the admission answers to it.
unfoldable pub run : List (ℕ × Admission) → World → World
run [] w = w
run ((i, a) ∷ rest) w = run rest (after i a w)
