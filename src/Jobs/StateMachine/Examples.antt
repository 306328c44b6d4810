-- ===== src/Jobs/StateMachine/Examples.antt =====
-- Tests of the state machine, and its theorems at concrete inputs.
use imagin.Prelude.{◌≡◌, refl, true, not, some}
use imagin.Jobs.StateMachine.{
  queued, dispatched, running, retry_wait, succeeded, failed, is_terminal, can_transition,
  assert_transition,
}
use imagin.Jobs.StateMachine.Reach.{Run, done, step, every_state_reached}

running_fails : can_transition running failed ≡ true
unfolding can_transition
running_fails = refl

queued_does_not_run :
    assert_transition queued running ≡ some (record { from_state = queued; to_state = running })
unfolding assert_transition
queued_does_not_run = refl

from_dispatched : Run dispatched succeeded
unfolding can_transition
from_dispatched = step {t = running} refl (step refl done)

not_succeeded : dispatched ≡ succeeded → ⊥
not_succeeded e = cc

every_state_reached_example :
    Run queued retry_wait × (can_transition retry_wait failed ≡ not (is_terminal retry_wait))
every_state_reached_example = every_state_reached retry_wait
