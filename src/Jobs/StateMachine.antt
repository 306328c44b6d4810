-- ===== src/Jobs/StateMachine.antt =====
-- backend/app/domain/jobs/state_machine.py: the states of a generation job, the allowed
-- transitions, and the decision on a cancellation request. A state is one of the nine constants,
-- so the last line of `request_cancel`, for a text that is no state, has no counterpart.
pub mod Reach
pub mod Cancel
pub mod Examples
use imagin.Prelude.{
  ℕ, ◌==◌, Bool, true, false, not, Option, none, some, List, [], ◌∷◌, any, if◌then◌else◌,
}

pub data State : Type 0 where
  queued admitted dispatched running retry_wait cancelling cancelled succeeded failed : State

-- Two states are the same text exactly when they have the same number.
abbrev pub number : State → ℕ
number queued = 0
number admitted = 1
number dispatched = 2
number running = 3
number retry_wait = 4
number cancelling = 5
number cancelled = 6
number succeeded = 7
number failed = 8

abbrev pub state_eq : State → State → Bool
state_eq a b = number a == number b

-- `state in (…)`
abbrev pub member : State → List State → Bool
member s = any (state_eq s)

abbrev pub terminal_states : List State
terminal_states = cancelled ∷ succeeded ∷ failed ∷ []

unfoldable pub allowed_transitions : State → List State
allowed_transitions queued = admitted ∷ cancelled ∷ failed ∷ []
allowed_transitions admitted = dispatched ∷ cancelled ∷ failed ∷ []
allowed_transitions dispatched = running ∷ cancelling ∷ failed ∷ retry_wait ∷ []
allowed_transitions running = succeeded ∷ retry_wait ∷ cancelling ∷ failed ∷ []
allowed_transitions retry_wait = queued ∷ failed ∷ cancelled ∷ []
allowed_transitions cancelling = cancelled ∷ failed ∷ []
allowed_transitions cancelled = []
allowed_transitions succeeded = []
allowed_transitions failed = []

unfoldable pub is_terminal : State → Bool
is_terminal s = member s terminal_states

unfoldable pub can_transition : State → State → Bool
unfolding is_terminal allowed_transitions
can_transition from to = if is_terminal from then false else member to (allowed_transitions from)

-- `IllegalTransitionError(from_state, to_state)`
pub record IllegalTransition : Type 0 where
  pub from_state : State
  pub to_state : State

-- `none` is the return without an error.
unfoldable pub assert_transition : State → State → Option IllegalTransition
unfolding can_transition
assert_transition from to =
    if not (can_transition from to)
    then some (record { from_state = from; to_state = to })
    else none

pub record CancelResult : Type 0 where
  pub already_terminal : Bool
  pub new_state : Option State

unfoldable pub request_cancel : State → CancelResult
unfolding is_terminal
request_cancel s =
    if is_terminal s
    then record { already_terminal = true; new_state = none }
    else if member s (queued ∷ admitted ∷ [])
    then record { already_terminal = false; new_state = some cancelled }
    else if member s (dispatched ∷ running ∷ [])
    then record { already_terminal = false; new_state = some cancelling }
    else if state_eq s retry_wait
    then record { already_terminal = false; new_state = some cancelled }
    else record { already_terminal = false; new_state = none }
