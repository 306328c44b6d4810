-- ===== src/RateLimit/Answers.antt =====
-- What is assumed of Redis for backend/app/core/rate_limit.py: the documented `INCR`, `DECR` and
-- `EXPIRE` on the counter of a key.
use imagin.Prelude.{ℕ, ◌+◌, ◌*◌, ◌≡◌, String, Bool, false, Option, none, some, leb, if◌then◌else◌}
use imagin.Prelude.Int.{ℤ, pos, plus_one, minus_one}
use imagin.RateLimit.{Redis}

-- The counter of a key: its amount, and the end of its TTL where it has one.
pub record Counter : Type 0 where
  pub amount : ℤ
  pub until : Option ℕ

abbrev pub has_ended : ℕ → Option ℕ → Bool
has_ended now none = false
has_ended now (some t) = leb t now

-- A counter whose TTL has ended is no longer there.
abbrev pub live : ℕ → Option Counter → Option Counter
live now none = none
live now (some c) = if has_ended now c.until then none else some c

abbrev amount_of : Option Counter → ℤ
amount_of none = pos 0
amount_of (some c) = c.amount

abbrev until_of : Option Counter → Option ℕ
until_of none = none
until_of (some c) = c.until

-- A key without a counter counts as 0.
abbrev pub amount_at : ℕ → Option Counter → ℤ
amount_at now c = amount_of (live now c)

-- `INCR` and `DECR` keep the TTL of a counter that is there; a new counter has none.
abbrev pub raise : ℕ → Option Counter → Option Counter
raise now c = some (record { amount = plus_one (amount_at now c); until = until_of (live now c) })

abbrev pub lower : ℕ → Option Counter → Option Counter
lower now c = some (record { amount = minus_one (amount_at now c); until = until_of (live now c) })

abbrev set_end : ℕ → Option Counter → Option Counter
set_end t none = none
set_end t (some c) = some (record c { until = some t })

-- `EXPIRE` sets the end of a counter that is there.
abbrev pub set_ttl : ℕ → ℕ → Option Counter → Option Counter
set_ttl seconds now c = set_end (now + seconds * 1000000) (live now c)

-- A Redis that answers: each command does to the counter of its key what is documented.
pub record Answers (r : Redis) : Type 0 where
  pub counter : String → r.Store → Option Counter
  pub raised : String → ℕ → r.Store → r.Store
  pub lowered : String → ℕ → r.Store → r.Store
  pub timed : String → ℕ → ℕ → r.Store → r.Store
  pub incr-some :
      (k : String) (now : ℕ) (s : r.Store)
      → r.incr k now s ≡ some (plus_one (amount_at now (counter k s)), raised k now s)
  pub decr-some : (k : String) (now : ℕ) (s : r.Store) → r.decr k now s ≡ some (lowered k now s)
  pub expire-some :
      (k : String) (t now : ℕ) (s : r.Store) → r.expire k t now s ≡ some (timed k t now s)
  pub counter-raised :
      (k : String) (now : ℕ) (s : r.Store) → counter k (raised k now s) ≡ raise now (counter k s)
  pub counter-lowered :
      (k : String) (now : ℕ) (s : r.Store) → counter k (lowered k now s) ≡ lower now (counter k s)
  pub counter-timed :
      (k : String) (t now : ℕ) (s : r.Store)
      → counter k (timed k t now s) ≡ set_ttl t now (counter k s)
