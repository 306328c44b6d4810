-- ===== src/Chat/PendingActions/Examples.antt =====
-- Tests of the rules on pending actions.
use imagin.Prelude.{none, some, refl, ◌≡◌}
use imagin.Chat.PendingActions.{
  PendingActionSnapshot, evaluate_confirmation, params_differ, ok, expired,
}

abbrev action : PendingActionSnapshot
action = record {
  id = "a1";
  user_id = "u1";
  conversation_id = "c1";
  status = "pending";
  expires_at = 50;
  params_fingerprint = "f";
  resulting_job_id = none;
}

in_time : evaluate_confirmation (some action) "u1" 49 none ≡ ok
unfolding evaluate_confirmation params_differ
in_time = refl

too_late : evaluate_confirmation (some action) "u1" 50 none ≡ expired
unfolding evaluate_confirmation
too_late = refl
