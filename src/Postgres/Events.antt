-- ===== src/Postgres/Events.antt =====
-- `_append_event`: the log of a job.
pub mod Numbers
pub mod Log
use imagin.Prelude.{ℕ, ◌+◌, String, Bool, List, ◌∷◌, ◌==◌}
use imagin.Prelude.Json.{Fields}
use imagin.Prelude.Table.{max_where, or_zero}
use imagin.Postgres.Tables.{EventRow, Database}

abbrev pub about : ℕ → EventRow → Bool
about id e = e.job_id == id

-- `coalesce((SELECT max(sequence_no) …), 0)`
unfoldable pub last_sequence : ℕ → List EventRow → ℕ
last_sequence id events = or_zero (max_where (about id) (λ e. e.sequence_no) events)

unfoldable pub append_event : ℕ → String → Fields → Database → Database
append_event id event_type payload db = record db {
  events =
      record {
        job_id = id;
        sequence_no = last_sequence id db.events + 1;
        event_type = event_type;
        payload = payload;
      }
      ∷ db.events;
}
