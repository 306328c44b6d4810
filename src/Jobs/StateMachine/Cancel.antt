-- ===== src/Jobs/StateMachine/Cancel.antt =====
-- Cancellation requests, and the transition table.
use imagin.Prelude.{◌≡◌, ◌⊎◌, true, some, none, Option, arith}
use imagin.Jobs.StateMachine.{
  State, cancelling, cancelled, is_terminal, can_transition, request_cancel,
}

-- The state after the request is applied.
abbrev applied : State → Option State → State
applied s none = s
applied s (some t) = t

abbrev pub after_cancel : State → State
after_cancel s = applied s (request_cancel s).new_state

-- The answer `already_terminal` is right; a new state is proposed only where the transition table
-- allows it, and it is cancelled or cancelling; without a proposal the job is terminal or is
-- cancelling already.
pub request_cancel_legal :
    (s : State)
    → ((request_cancel s).already_terminal ≡ is_terminal s)
      × ((t : State)
          → (request_cancel s).new_state ≡ some t
          → (can_transition s t ≡ true) × ((t ≡ cancelled) ⊎ (t ≡ cancelling)))
      × ((request_cancel s).new_state ≡ none → (is_terminal s ≡ true) ⊎ (s ≡ cancelling))
unfolding request_cancel can_transition
request_cancel_legal s = (ground arith, λ t h. ground arith, λ h. ground arith)

-- A second request changes nothing: the state that the first one leaves is kept.
pub request_cancel_idempotent : (s : State) → after_cancel (after_cancel s) ≡ after_cancel s
unfolding request_cancel
request_cancel_idempotent s = ground arith
