-- ===== src/Postgres/Marks.antt =====
-- The methods that change one job: guarded updates of its row, its last attempt and its log.
use imagin.Prelude.{ℕ, ◌+◌, String, Bool, true, false, not, Option, none, some, if◌then◌else◌}
use imagin.Prelude.Int.{pos}
use imagin.Prelude.Json.{Json, end, field, put, string, integer, null}
use imagin.Prelude.Table.{update_where}
use imagin.Jobs.StateMachine.{State, running, retry_wait, cancelled, succeeded, failed}
use imagin.Queue.Marks.{retry_delay}
use imagin.Postgres.Tables.{JobRow, AttemptRow, Database, row_of, is_over, is_open, update_last}
use imagin.Postgres.Events.{append_event}

-- `UPDATE generation_jobs SET … WHERE id = :id AND state NOT IN :terminal`
unfoldable pub update_open : ℕ → (JobRow → JobRow) → Database → Database
update_open id f db = record db { jobs = update_where (is_open id) f db.jobs }

-- `RETURNING id` gives a row.
abbrev pub opens : Option JobRow → Bool
opens none = false
opens (some r) = not (is_over r)

-- `error_code = :error_code`, where there is one
abbrev pub code_or : Option String → Option String → Option String
code_or none old = old
code_or (some code) old = some code

abbrev pub ended : ℕ → State → Option String → AttemptRow → AttemptRow
ended now state error_code a = record a {
  state = state;
  finished_at = some now;
  error_code = code_or error_code a.error_code;
}

-- `metrics || '{"result": …}'`
abbrev pub with_result : Json → AttemptRow → AttemptRow
with_result result a = record a { metrics = put "result" result a.metrics }

-- `_update_latest_attempt`
unfoldable pub update_attempt : ℕ → (AttemptRow → AttemptRow) → Database → Database
update_attempt id f db = record db { attempts = update_last id f db.attempts }

abbrev pub text_or_null : Option String → Json
text_or_null none = null
text_or_null (some t) = string t

abbrev pub row_running : ℕ → JobRow → JobRow
row_running now r = record r { state = running; started_at = some now }

unfoldable pub mark_running : ℕ → ℕ → Database → Database
mark_running now id db = update_open id (row_running now) db

abbrev pub row_succeeded : ℕ → JobRow → JobRow
row_succeeded now r = record r {
  state = succeeded;
  finished_at = some now;
  error_code = none;
  error_detail = none;
}

unfoldable pub mark_succeeded : ℕ → ℕ → Json → Database → Database
mark_succeeded now id result db =
    let updated = update_open id (row_succeeded now) db in
    if opens (row_of id db.jobs)
    then append_event id "job_succeeded" end
        (update_attempt id (λ a. with_result result (ended now succeeded none a)) updated)
    else updated

abbrev pub row_failed : ℕ → String → Option String → JobRow → JobRow
row_failed now error_code error_detail r = record r {
  state = failed;
  finished_at = some now;
  error_code = some error_code;
  error_detail = error_detail;
}

unfoldable pub mark_failed : ℕ → ℕ → String → Option String → Database → Database
mark_failed now id error_code error_detail db =
    let updated = update_open id (row_failed now error_code error_detail) db in
    if opens (row_of id db.jobs)
    then append_event id "job_failed"
        (field "error_code" (string error_code) (field "detail" (text_or_null error_detail) end))
        (update_attempt id (ended now failed (some error_code)) updated)
    else updated

abbrev pub row_retry_wait : ℕ → String → Option String → JobRow → JobRow
row_retry_wait available_at error_code error_detail r = record r {
  state = retry_wait;
  current_attempt = r.current_attempt + 1;
  error_code = some error_code;
  error_detail = error_detail;
  available_at = available_at;
}

-- From the delay on. `now` is the database's clock, and `clock` the process's.
unfoldable pub put_back : ℕ → ℕ → ℕ → String → Option String → ℕ → Database → Database
put_back now clock id error_code error_detail delay db =
    let updated = update_open id (row_retry_wait (clock + delay) error_code error_detail) db in
    if opens (row_of id db.jobs)
    then append_event id "job_retry_scheduled"
        (field "error_code" (string error_code) (
          field "detail" (text_or_null error_detail)
            (field "delay_seconds" (integer (pos delay)) end)))
        (update_attempt id (ended now retry_wait (some error_code)) updated)
    else updated

-- The row is read first, for the number of the attempt; the logged delay is in microseconds.
unfoldable pub mark_retry_wait :
    ℕ → ℕ → ℕ → String → Option String → Option ℕ → ℕ → Database → Database
mark_retry_wait now clock id error_code error_detail delay draw db = elim (row_of id db.jobs) [
  | none ↦ db
  | some r ↦
      put_back now clock id error_code error_detail (retry_delay delay (r.current_attempt + 1) draw)
        db
]

abbrev pub with_prompt : String → AttemptRow → AttemptRow
with_prompt prompt_id a = record a { comfy_prompt_id = some prompt_id }

unfoldable pub set_prompt_id : ℕ → String → Database → Database
set_prompt_id id prompt_id db = update_attempt id (with_prompt prompt_id) db

abbrev pub leased_until : ℕ → AttemptRow → AttemptRow
leased_until expires_at a = record a { lease_expires_at = expires_at }

unfoldable pub renew_lease : ℕ → ℕ → ℕ → Database → Database
renew_lease clock id lease db = update_attempt id (leased_until (clock + lease)) db

abbrev pub row_cancelled : ℕ → JobRow → JobRow
row_cancelled now r = record r {
  state = cancelled;
  cancel_requested_at = some now;
  finished_at = some now;
}

-- The database, and whether the job was cancelled.
unfoldable pub cancel : ℕ → ℕ → Database → Database × Bool
cancel now id db =
    let updated = update_open id (row_cancelled now) db in
    if opens (row_of id db.jobs)
    then (append_event id "job_cancelled" end updated, true)
    else (updated, false)
