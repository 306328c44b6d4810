-- ===== src/Chat/PendingActions.antt =====
-- backend/app/domain/chat/pending_actions.py: whether a pending action may be confirmed or
-- cancelled.
pub mod Outcomes
mod Examples
use imagin.Prelude.{
  ℕ, String, Option, none, some, not, ◌||◌, str_eq, leb, if◌then◌else◌, Bool, false,
}

pub data ConfirmOutcome : Type 0 where
  ok : ConfirmOutcome
  not_found : ConfirmOutcome
  wrong_owner : ConfirmOutcome
  already_confirmed : ConfirmOutcome
  cancelled : ConfirmOutcome
  expired : ConfirmOutcome
  params_changed : ConfirmOutcome

pub record PendingActionSnapshot : Type 0 where
  pub id : String
  pub user_id : String
  pub conversation_id : String
  pub status : String
  pub expires_at : ℕ
  pub params_fingerprint : String
  pub resulting_job_id : Option String

-- `expected_params_fingerprint is not None and expected_params_fingerprint != …`
unfoldable pub params_differ : Option String → String → Bool
params_differ none actual = false
params_differ (some expected) actual = not (str_eq expected actual)

unfoldable pub evaluate_confirmation :
    Option PendingActionSnapshot → String → ℕ → Option String → ConfirmOutcome
evaluate_confirmation none user now expected = not_found
evaluate_confirmation (some s) user now expected =
    if not (str_eq s.user_id user)
    then wrong_owner
    else if str_eq s.status "cancelled"
    then cancelled
    else if str_eq s.status "confirmed"
    then already_confirmed
    else if str_eq s.status "expired" || leb s.expires_at now
    then expired
    else if params_differ expected s.params_fingerprint
    then params_changed
    else ok

unfoldable pub evaluate_cancellation : Option PendingActionSnapshot → String → ConfirmOutcome
evaluate_cancellation none user = not_found
evaluate_cancellation (some s) user =
    if not (str_eq s.user_id user)
    then wrong_owner
    else if str_eq s.status "confirmed"
    then already_confirmed
    else ok
