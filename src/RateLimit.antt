-- ===== src/RateLimit.antt =====
-- backend/app/core/rate_limit.py: the limits for each user and window, and the gate for all. Redis is
-- a parameter; a call that raises gives `none`. Times are microseconds, on one clock for the program and
-- Redis; a window is 60 seconds in every call, and never 0.
pub mod Window
pub mod Answers
pub mod Counts
pub mod Gate
pub mod Late
mod Examples
use imagin.Prelude.{
  ℕ, ◌+◌, ◌-◌, ◌*◌, ◌/◌, ◌%◌, String, Bool, true, false, Option, none, some, leb, ◌==◌,
  if◌then◌else◌, count,
}
use imagin.Prelude.Int.{ℤ, pos, leb_ℤ, is_one}
use imagin.Prelude.Parts.{with_colon}
use imagin.Prelude.Python.{Python}

-- `redis.asyncio.Redis`: the calls that the code makes, on the counters of a store, each with the time
-- of the call. A TTL is in seconds.
pub record Redis : Type 1 where
  pub Store : Type 0
  pub incr : String → ℕ → Store → Option (ℤ × Store)
  pub decr : String → ℕ → Store → Option Store
  pub expire : String → ℕ → ℕ → Store → Option Store

-- `int(time.time() // window_seconds)`, for a window of at least a second; none is of 0 seconds,
-- where Python raises.
unfoldable pub window_of : ℕ → ℕ → ℕ
window_of now window_seconds = now / (window_seconds * 1000000)

-- `rate_limit_key`
unfoldable pub rate_limit_key : Python → String → String → ℕ → ℕ → String
rate_limit_key py scope user_id now window_seconds =
    with_colon "rl"
      (with_colon scope (with_colon user_id (py.print_int (pos (window_of now window_seconds)))))

-- `seconds_until_window_reset`; the remainder is cut to whole seconds.
unfoldable pub seconds_until_window_reset : ℕ → ℕ → ℕ
seconds_until_window_reset now window_seconds =
    window_seconds - now % (window_seconds * 1000000) / 1000000 + 1

module _ (r : Redis) where
  -- A call that raises leaves the store as it was.
  abbrev or_same : r.Store → Option r.Store → r.Store
  or_same s none = s
  or_same s (some s') = s'

  -- The answer, with the TTL set for a new counter. If that raises, the answer is true all the same.
  abbrev limited : ℤ → ℕ → r.Store → Option r.Store → Bool × r.Store
  limited count limit s none = (true, s)
  limited count limit s (some s') = (leb_ℤ count (pos limit), s')

  abbrev pub counted : String → ℕ → ℕ → ℕ → r.Store → Option (ℤ × r.Store) → Bool × r.Store
  counted key limit window now s none = (true, s)
  counted key limit window now s (some (count, s')) =
      if is_one count
      then limited count limit s' (r.expire key window now s')
      else (leb_ℤ count (pos limit), s')

  -- `check_rate_limit` with a client
  unfoldable pub check_rate_limit : Python → String → String → ℕ → ℕ → ℕ → r.Store → Bool × r.Store
  check_rate_limit py scope user_id limit_per_window window_seconds now s =
      if leb limit_per_window 0
      then (true, s)
      else let key = rate_limit_key py scope user_id now window_seconds in
        counted key limit_per_window window_seconds now s (r.incr key now s)

  abbrev pub inflight : String
  inflight = "admission:inflight"

  -- `AdmissionGate.release`
  unfoldable pub release : ℕ → r.Store → r.Store
  release now s = or_same s (r.decr inflight now s)

  abbrev pub decided : ℕ → ℤ → ℕ → r.Store → Option r.Store → Bool × r.Store
  decided max_inflight count now s none = (true, s)
  decided max_inflight count now s (some s') =
      if leb_ℤ count (pos max_inflight) then (true, s') else (false, release now s')

  abbrev pub acquired : ℕ → ℕ → ℕ → r.Store → Option (ℤ × r.Store) → Bool × r.Store
  acquired max_inflight ttl now s none = (true, s)
  acquired max_inflight ttl now s (some (count, s')) =
      decided max_inflight count now s' (r.expire inflight ttl now s')

  -- `AdmissionGate.try_acquire` with a client; its calls of Redis are at one time.
  unfoldable pub try_acquire : ℕ → ℕ → ℕ → r.Store → Bool × r.Store
  try_acquire max_inflight ttl now s =
      if leb max_inflight 0
      then (true, s)
      else acquired max_inflight ttl now s (r.incr inflight now s)
