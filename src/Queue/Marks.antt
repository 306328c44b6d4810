-- ===== src/Queue/Marks.antt =====
-- The methods that change one job: `mark_running`, `mark_succeeded`, `mark_failed`,
-- `mark_retry_wait`, `set_prompt_id`, `renew_lease` and `cancel`. Each is a change of the job, made
-- where the dictionary has it.
use imagin.Prelude.{ℕ, ◌+◌, String, Bool, true, false, not, Option, none, some, if◌then◌else◌}
use imagin.Prelude.Json.{Json}
use imagin.Jobs.StateMachine.{running, retry_wait, cancelled, succeeded, failed}
use imagin.Jobs.Retry.{default_config, compute_backoff}
use imagin.Queue.{JobQueue}
use imagin.Queue.Job.{QueuedJob, is_active, is_finished}
use imagin.Queue.Store.{find, update}

-- The queue after a change of the job with the identifier.
abbrev pub alter : ℕ → (QueuedJob → QueuedJob) → JobQueue → JobQueue
alter id f q = record q { jobs = update id f q.jobs }

abbrev pub to_running : QueuedJob → QueuedJob
to_running j = record j { state = running; prompt_id = none }

-- No test of the state stands before this change.
unfoldable pub mark_running : ℕ → JobQueue → JobQueue
mark_running id = alter id to_running

abbrev pub to_succeeded : Json → QueuedJob → QueuedJob
to_succeeded result j = if is_finished j then j else record j {
  state = succeeded;
  result = some result;
  lease_owner = none;
  lease_expires_at = none;
  error_code = none;
  error_detail = none;
}

unfoldable pub mark_succeeded : ℕ → Json → JobQueue → JobQueue
mark_succeeded id result = alter id (to_succeeded result)

abbrev pub to_failed : String → Option String → QueuedJob → QueuedJob
to_failed error_code error_detail j = if is_finished j then j else record j {
  state = failed;
  error_code = some error_code;
  error_detail = error_detail;
  lease_owner = none;
  lease_expires_at = none;
}

unfoldable pub mark_failed : ℕ → String → Option String → JobQueue → JobQueue
mark_failed id error_code error_detail = alter id (to_failed error_code error_detail)

-- `delay_seconds`, or a backoff that `draw` decides, for the attempts made by then.
unfoldable pub retry_delay : Option ℕ → ℕ → ℕ → ℕ
retry_delay none attempts draw = compute_backoff default_config attempts draw
retry_delay (some delay) attempts draw = delay

abbrev pub to_retry_wait : ℕ → String → Option String → Option ℕ → ℕ → QueuedJob → QueuedJob
to_retry_wait now error_code error_detail delay draw j = if is_finished j then j else record j {
  state = retry_wait;
  error_code = some error_code;
  error_detail = error_detail;
  current_attempt = j.current_attempt + 1;
  lease_owner = none;
  lease_expires_at = none;
  available_at = some (now + retry_delay delay (j.current_attempt + 1) draw);
}

unfoldable pub mark_retry_wait : ℕ → ℕ → String → Option String → Option ℕ → ℕ → JobQueue → JobQueue
mark_retry_wait now id error_code error_detail delay draw =
    alter id (to_retry_wait now error_code error_detail delay draw)

abbrev pub with_prompt : String → QueuedJob → QueuedJob
with_prompt prompt_id j = record j { prompt_id = some prompt_id }

unfoldable pub set_prompt_id : ℕ → String → JobQueue → JobQueue
set_prompt_id id prompt_id = alter id (with_prompt prompt_id)

abbrev pub renewed : ℕ → QueuedJob → QueuedJob
renewed expires_at j = if is_active j then record j { lease_expires_at = some expires_at } else j

unfoldable pub renew_lease : ℕ → ℕ → ℕ → JobQueue → JobQueue
renew_lease now id lease = alter id (renewed (now + lease))

abbrev pub to_cancelled : QueuedJob → QueuedJob
to_cancelled j = if is_finished j then j else record j { state = cancelled }

abbrev pub can_cancel : Option QueuedJob → Bool
can_cancel none = false
can_cancel (some j) = not (is_finished j)

-- The new queue, and whether the job was cancelled.
unfoldable pub cancel : ℕ → JobQueue → JobQueue × Bool
cancel id q = if can_cancel (find id q.jobs) then (alter id to_cancelled q, true) else (q, false)
