-- ===== src/Chat/Confirm/Examples.antt =====
-- Requests on one pending action, at concrete inputs.
use imagin.Prelude.{String, ℕ, none, refl, List, [], ◌∷◌, ◌≡◌, ◌≤◌, All}
use imagin.Chat.PendingActions.{PendingActionSnapshot, evaluate_confirmation, params_differ}
use imagin.Chat.Confirm.{
  Admission, job, Request, confirming, cancelling, World, run, step, step_at, answered,
  capacity_exceeded, executed, replayed,
}
use imagin.Chat.Confirm.Same.{Only, OnlyIn, run-same}
use imagin.Chat.Confirm.Once.{run-once}
use imagin.Chat.Confirm.Stuck.{run-stuck, HasNoJob}

abbrev row : PendingActionSnapshot
row = record {
  id = "a";
  user_id = "u";
  conversation_id = "c";
  status = "pending";
  expires_at = 100;
  params_fingerprint = "f";
  resulting_job_id = none;
}

abbrev asks : Request
asks = record { user_id = "u"; now = 10; phase = confirming }

abbrev two : World
two = record { row = row; admissions = 0; requests = asks ∷ asks ∷ [] }

-- Both requests read the row before either updates it.
abbrev race : List (ℕ × Admission)
race =
    (0, job "j")
    ∷ (1, job "k")
    ∷ (0, job "j")
    ∷ (1, job "k")
    ∷ (0, job "j")
    ∷ (0, job "j")
    ∷ (1, job "k")
    ∷ []

one_wins :
    (run race two).requests
    ≡ record asks { phase = answered (executed "j") }
      ∷ record asks { phase = answered (replayed "j") }
      ∷ []
unfolding run step step_at evaluate_confirmation params_differ
one_wins = refl

run-once_example : (run race two).admissions ≤ 1
run-once_example = run-once race two refl refl

run-same_example :
    (id : String) × Only id (run race two).row.resulting_job_id × OnlyIn id (run race two).requests
run-same_example = run-same race two refl refl (refl, (refl, (refl, tt)))

abbrev stuck : World
stuck = record {
  row = record row { status = "confirmed" };
  admissions = 1;
  requests =
      record asks { phase = answered capacity_exceeded }
      ∷ asks
      ∷ record asks { phase = cancelling }
      ∷ [];
}

abbrev again : List (ℕ × Admission)
again = (1, job "j") ∷ (2, job "j") ∷ (1, job "j") ∷ []

run-stuck_example :
    ((run again stuck).admissions ≡ 1)
    × ((run again stuck).row.resulting_job_id ≡ none)
    × All HasNoJob (run again stuck).requests
run-stuck_example = run-stuck again stuck (refl, refl) (refl, (refl, (refl, tt)))
