-- ===== src/Contract/Durable.antt =====
-- `PostgresJobQueue` and the contract.
use imagin.Prelude.{
  ℕ, ◌+◌, String, ◌≡◌, refl, sym, ap, ◌∙◌, inl, inr, Bool, true, false, not, ◌&&◌, Option, none,
  some, arith, ◌==◌, if◌then◌else◌, ==_iff, Bool-cases, Option-cases,
}
use imagin.Prelude.Json.{Fields}
use imagin.Postgres.Tables.{JobRow, Database, row_of, is_over, is_open, AttemptRow}
use imagin.Postgres.Rows.{KeepsKey, touched, row_of-update_where, row_of-id}
use imagin.Postgres.Events.{append_event}
use imagin.Postgres.Marks.{
  update_open, update_attempt, opens, put_back, mark_succeeded, mark_failed, mark_retry_wait,
  cancel, row_succeeded, row_failed, row_retry_wait, row_cancelled,
}
use imagin.Contract.{
  View, Settlement, succeeds, fails, retries, cancels, change, settle, settle_at, Queue,
}

abbrev pub view : JobRow → View
view r = record {
  state = r.state;
  current_attempt = r.current_attempt;
  error_code = r.error_code;
  error_detail = r.error_detail;
}

abbrev view_of : Option JobRow → Option View
view_of none = none
view_of (some r) = some (view r)

abbrev pub look : ℕ → Database → Option View
look id db = view_of (row_of id db.jobs)

abbrev pub call : ℕ → ℕ → ℕ → Settlement → Database → Database
call now clock id (succeeds result) db = mark_succeeded now id result db
call now clock id (fails code detail) db = mark_failed now id code detail db
call now clock id (retries code detail delay draw) db =
    mark_retry_wait now clock id code detail delay draw db
call now clock id cancels db = (cancel now id db).0

touched-view :
    (k id : ℕ) (f : JobRow → JobRow) (s : Settlement) (o : Option JobRow)
    → ((r : JobRow) → o ≡ some r → r.id ≡ k)
    → ((r : JobRow) → view (f r) ≡ change s (view r))
    → view_of (touched (is_open id) f o) ≡ settle_at (id == k) s (view_of o)
unfolding settle
touched-view k id f s none i h = refl
touched-view k id f s (some r) i h = ap some (own (id == k) (r.id == id) (is_over r) both (h r))
  where
    both : (id == k) ≡ (r.id == id)
    both = ground (arith, i r refl)

    own :
        (a b over : Bool)
        → a ≡ b
        → view (f r) ≡ change s (view r)
        → view (if b && not over then f r else r)
          ≡ (if a then (if over then view r else change s (view r)) else view r)
    own true true true e h = refl
    own true true false e h = h
    own true false over e h = cc
    own false true over e h = cc
    own false false over e h = refl

open-look :
    (k id : ℕ) (f : JobRow → JobRow) (s : Settlement) (db : Database)
    → KeepsKey f
    → ((r : JobRow) → view (f r) ≡ change s (view r))
    → look k (update_open id f db) ≡ settle_at (id == k) s (look k db)
unfolding update_open
open-look k id f s db keeps h =
    ap view_of (row_of-update_where k (is_open id) f db.jobs keeps)
    ∙ touched-view k id f s (row_of k db.jobs) (λ r e. row_of-id k db.jobs r e) h

-- Both ends of a transaction have the same rows.
either_end :
    (k : ℕ) (b : Bool) (logged updated : Database)
    → look k logged ≡ look k updated
    → look k (if b then logged else updated) ≡ look k updated
either_end k true logged updated h = h
either_end k false logged updated h = refl

logged-look :
    (k id : ℕ) (event_type : String) (payload : Fields) (f : AttemptRow → AttemptRow)
    (db : Database)
    → look k (append_event id event_type payload (update_attempt id f db)) ≡ look k db
unfolding append_event update_attempt
logged-look k id event_type payload f db = refl

back-look :
    (k now clock id : ℕ) (code : String) (detail : Option String) (delay draw n : ℕ) (d : Option ℕ)
    (db : Database)
    → look k (put_back now clock id code detail delay db)
      ≡ settle_at (id == k) (retries code detail d draw) (look k db)
unfolding put_back
back-look k now clock id code detail delay draw n d db =
    either_end k (opens (row_of id db.jobs)) _ _ (logged-look k id _ _ _ _)
    ∙ open-look k id (row_retry_wait (clock + delay) code detail) (retries code detail d draw) db
        (λ r. refl) (λ r. refl)

absent-look :
    (k id : ℕ) (s : Settlement) (db : Database)
    → row_of id db.jobs ≡ none
    → look k db ≡ settle_at (id == k) s (look k db)
absent-look k id s db h = elim (Bool-cases (id == k)) [
  | inl e ↦
      let gone : row_of k db.jobs ≡ none =
        ap (λ n. row_of n db.jobs) (sym ((==_iff id k).0 e)) ∙ h in
      rw gone refl
  | inr e ↦ rw e (kept s (look k db))
]
  where
    kept : (s : Settlement) (o : Option View) → o ≡ settle_at false s o
    kept s none = refl
    kept s (some v) = refl

retry-look :
    (k now clock id : ℕ) (code : String) (detail : Option String) (d : Option ℕ) (draw : ℕ)
    (db : Database)
    → look k (mark_retry_wait now clock id code detail d draw db)
      ≡ settle_at (id == k) (retries code detail d draw) (look k db)
unfolding mark_retry_wait
retry-look k now clock id code detail d draw db = elim (Option-cases (row_of id db.jobs)) [
  | inl e ↦ rw (e, mark_retry_wait) (absent-look k id (retries code detail d draw) db e)
  | inr (r, e) ↦ rw (e, mark_retry_wait) (back-look k now clock id code detail _ draw 0 d db)
]

cancelled-look :
    (k id : ℕ) (now : ℕ) (db : Database)
    → look k (cancel now id db).0 ≡ settle_at (id == k) cancels (look k db)
unfolding cancel append_event
cancelled-look k id now db =
    let same = open-look k id (row_cancelled now) cancels db (λ r. refl) (λ r. refl) in
    elim (Bool-cases (opens (row_of id db.jobs))) [ inl e ↦ rw e same | inr e ↦ rw e same ]

pub call-look :
    (k now clock id : ℕ) (s : Settlement) (db : Database)
    → look k (call now clock id s db) ≡ settle_at (id == k) s (look k db)
unfolding mark_succeeded mark_failed
call-look k now clock id (succeeds result) db =
    either_end k (opens (row_of id db.jobs)) _ _ (logged-look k id _ _ _ _)
    ∙ open-look k id (row_succeeded now) (succeeds result) db (λ r. refl) (λ r. refl)
call-look k now clock id (fails code detail) db =
    either_end k (opens (row_of id db.jobs)) _ _ (logged-look k id _ _ _ _)
    ∙ open-look k id (row_failed now code detail) (fails code detail) db (λ r. refl) (λ r. refl)
call-look k now clock id (retries code detail d draw) db =
    retry-look k now clock id code detail d draw db
call-look k now clock id cancels db = cancelled-look k id now db

abbrev pub durable : Queue
durable = record { Store = Database; look = look; call = call; look-call = call-look }
