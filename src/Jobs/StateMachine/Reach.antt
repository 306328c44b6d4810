-- ===== src/Jobs/StateMachine/Reach.antt =====
-- Runs of the state machine: sequences of transitions that `can_transition` allows.
use imagin.Prelude.{◌≡◌, ◌≢◌, ◌⊎◌, inl, inr, refl, true, not, arith}
use imagin.Jobs.StateMachine.{
  State, queued, admitted, dispatched, running, retry_wait, cancelling, cancelled, succeeded,
  failed, is_terminal, can_transition,
}

-- The transitions taken from `s`, in order, up to `t`.
pub data Run : State → State → Type 0 where
  done : {s : State} → Run s s
  step : {s t u : State} → can_transition s t ≡ true → Run t u → Run s u

entry : (s t : State) → can_transition s t ≡ true → t ≡ succeeded → s ≡ running
unfolding can_transition
entry s t k e = ground arith

is_succeeded : (s : State) → (s ≡ succeeded) ⊎ (s ≢ succeeded)
is_succeeded succeeded = inl refl
is_succeeded s = inr (λ e. cc)

through_running : {s t : State} → Run s t → t ≡ succeeded → s ≢ succeeded → Run s running
through_running done e n = absurd (n e)
through_running {s} (step {t = t} k r) e n = elim (is_succeeded t) [
  | inl p ↦ rw (entry s t k p) done
  | inr q ↦ step k (through_running r e q)
]

-- A job that has not succeeded yet can succeed only by way of running: a run from its state to
-- succeeded contains a run to running.
pub succeeded_needs_running : {s : State} → s ≢ succeeded → Run s succeeded → Run s running
succeeded_needs_running n r = through_running r refl n

-- Every state can be reached from queued.
reached : (s : State) → Run queued s
unfolding can_transition
reached queued = done
reached admitted = step refl done
reached dispatched = step {t = admitted} refl (step refl done)
reached running = step {t = admitted} refl (step {t = dispatched} refl (step refl done))
reached retry_wait = step {t = admitted} refl (step {t = dispatched} refl (step refl done))
reached cancelling = step {t = admitted} refl (step {t = dispatched} refl (step refl done))
reached cancelled = step refl done
reached succeeded =
    step {t = admitted} refl (step {t = dispatched} refl (step {t = running} refl (step refl done)))
reached failed = step refl done

fail_edge : (s : State) → can_transition s failed ≡ not (is_terminal s)
unfolding can_transition
fail_edge s = ground arith

-- Every state is reached by some run from queued, and the transition to failed is allowed exactly
-- in the states that are not terminal.
pub every_state_reached :
    (s : State) → Run queued s × (can_transition s failed ≡ not (is_terminal s))
every_state_reached s = (reached s, fail_edge s)
