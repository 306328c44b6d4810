-- ===== src/Postgres/Examples.antt =====
-- Tests of the database's queue, and its theorems at concrete inputs.
use imagin.Prelude.Table.{order_by, update_where}
use imagin.Postgres.Events.{append_event}
use imagin.Prelude.{
  ℕ, Bool, false, none, some, List, [], ◌∷◌, ◌≡◌, refl, ◌≤◌, ◌+◌, max, All, map, arith,
}
use imagin.Prelude.Json.{end, object}
use imagin.Jobs.StateMachine.{failed}
use imagin.Queue.Fixtures.{early, late}
use imagin.Postgres.Tables.{JobRow, row_of, no_rows}
use imagin.Postgres.Attempts.{IsConsistent}
use imagin.Postgres.Events.Log.{Logs, history-Logs}
use imagin.Postgres.Claim.{
  claim, claim_next_with_lease, enqueue, claim_singly, workflow_of, candidates, ranks_before,
  claim_rows, finalize_all, finalize_claimed_row,
}
use imagin.Postgres.Claim.Finalized.{IsFresh}
use imagin.Postgres.Marks.{mark_failed, update_attempt, update_open}
use imagin.Postgres.Claim.Cap.{active_rows, claim-cap}
use imagin.Postgres.Reads.{queue_rank, is_ahead}
use imagin.Postgres.Commits.{
  Transaction, enqueues, claims, marks_running, marks_failed, marks_retry_wait, commit_all,
}
use imagin.Postgres.Commits.History.{history-IsConsistent, history-claim-IsFresh}
use imagin.Postgres.Commits.Over.{history-over}

abbrev free : ℕ → Bool
free id = false

abbrev two_jobs : List (ℕ × ℕ × Transaction)
two_jobs =
    (30, 30, enqueues (record early { idempotency_key = "first" }))
    ∷ (30, 30, enqueues (record late { idempotency_key = "second" }))
    ∷ []

abbrev retried : List (ℕ × ℕ × Transaction)
retried =
    (30, 30, enqueues early)
    ∷ (40, 40, claims free 1 none 0)
    ∷ (50, 50, marks_retry_wait 1 "comfy_transient" none (some 5) 0)
    ∷ []

abbrev given_up : List (ℕ × ℕ × Transaction)
given_up = (30, 30, enqueues early) ∷ (40, 40, marks_failed 1 "comfy_error" none) ∷ []

abbrev failed_row : JobRow
failed_row = record {
  id = 1;
  user_id = 7;
  conversation_id = none;
  kind = "image_basic";
  model_family = "sdxl";
  workflow_version = "v1";
  state = failed;
  priority = 0;
  effective_priority = 0;
  idempotency_key = "key";
  input_payload = object end;
  assigned_worker_id = none;
  current_attempt = 2;
  max_attempts = 3;
  queued_at = 10;
  available_at = 10;
  started_at = none;
  finished_at = some 40;
  cancel_requested_at = none;
  error_code = some "comfy_error";
  error_detail = none;
}

found_failed : row_of 1 (commit_all given_up no_rows).jobs ≡ some failed_row
unfolding row_of commit_all mark_failed enqueue workflow_of no_rows append_event update_attempt
    update_open update_where
found_failed = refl

older_ranks_first : queue_rank 60 2 none (commit_all two_jobs no_rows) ≡ some 1
unfolding queue_rank row_of commit_all enqueue workflow_of no_rows append_event is_ahead
older_ranks_first = refl

cap_holds :
    map (λ r. r.id) (claim 60 60 free 5 none "a" 9 1 (commit_all two_jobs no_rows)).rows ≡ 1 ∷ []
unfolding claim claim_singly candidates order_by commit_all enqueue workflow_of no_rows append_event
    ranks_before claim_rows update_where finalize_all finalize_claimed_row
cap_holds = refl

history-over_example :
    row_of 1
      (commit_all
        ((50, 50, marks_running 1) ∷ (60, 60, enqueues early) ∷ [])
        (commit_all given_up no_rows)).jobs
    ≡ some failed_row
history-over_example =
    history-over given_up ((50, 50, marks_running 1) ∷ (60, 60, enqueues early) ∷ []) 1 failed_row
      found_failed refl

history-IsConsistent_example : IsConsistent (commit_all retried no_rows)
history-IsConsistent_example = history-IsConsistent retried

history-Logs_example : Logs 1 (commit_all retried no_rows)
history-Logs_example = history-Logs retried 1

history-claim-IsFresh_example :
    All
      (IsFresh "a"
        (70 + 9)
        (claim_next_with_lease 70 70 free 1 "a" 9 none 0 (commit_all retried no_rows)).db.attempts)
      (claim_next_with_lease 70 70 free 1 "a" 9 none 0 (commit_all retried no_rows)).rows
history-claim-IsFresh_example = history-claim-IsFresh retried 70 70 free 1 "a" 9 none 0

claim-cap_example :
    active_rows 7 (claim 60 60 free 5 none "a" 9 1 (commit_all two_jobs no_rows)).db.jobs
    ≤ max 1 (active_rows 7 (commit_all two_jobs no_rows).jobs)
claim-cap_example =
    claim-cap 60 60 free 5 none "a" 9 1 7 (commit_all two_jobs no_rows)
      (history-IsConsistent two_jobs) (omega arith)
