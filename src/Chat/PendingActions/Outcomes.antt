-- ===== src/Chat/PendingActions/Outcomes.antt =====
-- When a confirmation and a cancellation are allowed.
use imagin.Prelude.{ℕ, String, Option, none, some, eq_iff, arith, ◌≡◌, ◌≢◌, ◌↔◌, ◌<◌, false, refl}
use imagin.Chat.PendingActions.{
  PendingActionSnapshot, ok, params_differ, evaluate_confirmation, evaluate_cancellation,
}

-- The fingerprint that the caller expects, if it expects one.
abbrev pub Agrees : Option String → String → Type 0
Agrees none actual = Unit
Agrees (some expected) actual = expected ≡ actual

params_agree :
    (expected : Option String) (actual : String)
    → (params_differ expected actual ≡ false) ↔ Agrees expected actual
unfolding params_differ
params_agree none actual = (λ h. tt, λ h. refl)
params_agree (some g) actual = ground (arith, eq_iff g actual)

tests_ok :
    (s : PendingActionSnapshot) (user : String) (now : ℕ) (expected : Option String)
    → (evaluate_confirmation (some s) user now expected ≡ ok) ↔ (
        (s.user_id ≡ user)
        × (s.status ≢ "cancelled")
        × (s.status ≢ "confirmed")
        × (s.status ≢ "expired")
        × (now < s.expires_at)
        × (params_differ expected s.params_fingerprint ≡ false))
unfolding evaluate_confirmation
tests_ok s user now expected = ground (
  arith,
  eq_iff s.user_id user,
  eq_iff s.status "cancelled",
  eq_iff s.status "confirmed",
  eq_iff s.status "expired",
)

-- The confirmation of an action that is on record goes through exactly when the action belongs to
-- the user who asks, has none of the statuses cancelled, confirmed and expired, expires later than
-- now, and has the fingerprint that the caller expects, if it expects one.
pub evaluate_confirmation_ok :
    (s : PendingActionSnapshot) (user : String) (now : ℕ) (expected : Option String)
    → (evaluate_confirmation (some s) user now expected ≡ ok) ↔ (
        (s.user_id ≡ user)
        × (s.status ≢ "cancelled")
        × (s.status ≢ "confirmed")
        × (s.status ≢ "expired")
        × (now < s.expires_at)
        × Agrees expected s.params_fingerprint)
evaluate_confirmation_ok s user now expected =
    let both = tests_ok s user now expected in
    let agree = params_agree expected s.params_fingerprint in
    (
      λ h. let (a, b, c, d, e, f) = both.0 h in (a, b, c, d, e, agree.0 f),
      λ (a, b, c, d, e, f). both.1 (a, b, c, d, e, agree.1 f),
    )

-- An action that may be confirmed may also be cancelled, by the same user.
pub confirmable_is_cancellable :
    (s : Option PendingActionSnapshot) (user : String) (now : ℕ) (expected : Option String)
    → evaluate_confirmation s user now expected ≡ ok
    → evaluate_cancellation s user ≡ ok
unfolding evaluate_confirmation evaluate_cancellation
confirmable_is_cancellable none user now expected h = cc
confirmable_is_cancellable (some s) user now expected h =
    ground (arith, eq_iff s.user_id user, eq_iff s.status "confirmed")
