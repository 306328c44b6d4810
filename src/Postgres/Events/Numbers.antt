-- ===== src/Postgres/Events/Numbers.antt =====
-- The sequence numbers of a job's events.
use imagin.Prelude.{ℕ, ◌+◌, ◌≡◌, refl, true, List, [], ◌∷◌, count, arith, String}
use imagin.Prelude.Table.{max_where}
use imagin.Postgres.Tables.{EventRow, Database}
use imagin.Postgres.Events.{about, last_sequence, append_event, Fields}

-- The newest event stands first: each event of the job has the number of the job's events up to it.
abbrev pub IsNumbered : ℕ → List EventRow → Type 0
IsNumbered id [] = Unit
IsNumbered id (e ∷ es) =
    (about id e ≡ true → e.sequence_no ≡ count (about id) es + 1) × IsNumbered id es

last_sequence-count :
    (id : ℕ) (es : List EventRow) → IsNumbered id es → last_sequence id es ≡ count (about id) es
unfolding last_sequence max_where
last_sequence-count id [] h = refl
last_sequence-count id (e ∷ es) h = ground (arith, h.0, last_sequence-count id es h.1)

pub append_event-IsNumbered :
    (id k : ℕ) (event_type : String) (payload : Fields) (db : Database)
    → IsNumbered id db.events
    → IsNumbered id (append_event k event_type payload db).events
unfolding append_event
append_event-IsNumbered id k event_type payload db h =
    (λ e. ground (arith, last_sequence-count id db.events h), h)
