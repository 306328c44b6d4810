-- ===== src/RateLimit/Gate.antt =====
-- Requests that pass the gate of backend/app/core/rate_limit.py, one after the other. `release` does
-- not renew the TTL of the counter.
use imagin.Prelude.{
  ℕ, zero, suc, ◌+◌, ◌*◌, ◌≤◌, ◌<◌, ◌≡◌, refl, sym, Option, ◌⊎◌, inl, inr, Bool, true, false, none,
  some, List, [], ◌∷◌, leb, if◌then◌else◌, arith, Bool-cases,
}
use imagin.Prelude.Int.{pos}
use imagin.RateLimit.{Redis, inflight, try_acquire, release}
use imagin.RateLimit.Answers.{Counter, Answers, amount_at, raise, lower, set_ttl}

-- A request that arrives at a time, or the end of one that was let in.
pub data Event : Type 0 where
  arrives ends : ℕ → Event

abbrev time_of : Event → ℕ
time_of (arrives t) = t
time_of (ends t) = t

-- The counter at `n`, with a TTL that ends at `until`, or no counter at all for 0.
abbrev pub Counts : ℕ → ℕ → Option Counter → Type 0
Counts n until c =
    (c ≡ some (record { amount = pos n; until = some until })) ⊎ ((c ≡ none) × (n ≡ 0))

Counts-raise :
    (ttl t n until : ℕ) (c : Option Counter)
    → Counts n until c
    → (n ≡ 0) ⊎ (t < until)
    → (amount_at t c ≡ pos n)
      × (set_ttl ttl t (raise t c)
          ≡ some (record { amount = pos (suc n); until = some (t + ttl * 1000000) }))
Counts-raise ttl t n until c h g = ground arith

lower-some :
    (t n until : ℕ)
    → t < until
    → lower t (some (record { amount = pos (suc n); until = some until }))
      ≡ some (record { amount = pos n; until = some until })
lower-some t n until h = ground arith

module _ (r : Redis) (max_inflight ttl : ℕ) where
  -- The requests that are in, the end of the TTL that the latest arrival set, and the store.
  pub record State : Type 0 where
    pub held : ℕ
    pub until : ℕ
    pub store : r.Store

  abbrev arrived : ℕ → State → Bool × r.Store → State
  arrived t st (ok, s) = record {
    held = if ok then st.held + 1 else st.held;
    until = t + ttl * 1000000;
    store = s;
  }

  abbrev ended : ℕ → ℕ → ℕ → r.Store → State
  ended t until zero s = record { held = zero; until = until; store = s }
  ended t until (suc held) s = record { held = held; until = until; store = release r t s }

  abbrev pub step : Event → State → State
  step (arrives t) st = arrived t st (try_acquire r max_inflight ttl t st.store)
  step (ends t) st = ended t st.until st.held st.store

  abbrev pub steps : List Event → State → State
  steps [] st = st
  steps (e ∷ es) st = steps es (step e st)

  -- While requests are in, every event comes before the TTL that the latest arrival set has ended.
  abbrev pub InTime : List Event → State → Type 0
  InTime [] st = Unit {0}
  InTime (e ∷ es) st = ((st.held ≡ 0) ⊎ (time_of e < st.until)) × InTime es (step e st)

  module _ (a : Answers r) (positive : 0 < max_inflight) (lasting : 0 < ttl) where
    -- The counter is the number of the requests that are in, with the TTL of the latest arrival, or it
    -- is not there and no request is in; the requests that are in are within the maximum.
    abbrev pub IsKept : State → Type 0
    IsKept st = Counts st.held st.until (a.counter (inflight r) st.store) × (st.held ≤ max_inflight)

    -- What an arrival is told, and the counter that it leaves.
    pub try_acquire-Counts :
        (t n until : ℕ) (s : r.Store)
        → Counts n until (a.counter (inflight r) s)
        → (n ≡ 0) ⊎ (t < until)
        → (s' : r.Store) × (m : ℕ) × (ok : Bool) × (try_acquire r max_inflight ttl t s ≡ (ok, s'))
          × (a.counter (inflight r) s'
              ≡ some (record { amount = pos m; until = some (t + ttl * 1000000) }))
          × (((ok ≡ true) × (m ≡ n + 1) × (n < max_inflight))
              ⊎ ((ok ≡ false) × (m ≡ n) × (max_inflight ≤ n)))
    unfolding try_acquire release
    try_acquire-Counts t n until s h w =
        let k = inflight r in
        let some_limit : leb max_inflight 0 ≡ false = ground arith in
        let (amount, up) = Counts-raise ttl t n until (a.counter k s) h w in
        let s' = a.timed k ttl t (a.raised k t s) in
        let counts : a.counter k s'
            ≡ some (record { amount = pos (suc n); until = some (t + ttl * 1000000) }) =
          rw (a.counter-timed k ttl t (a.raised k t s), a.counter-raised k t s) up in
        rw (some_limit, a.incr-some k t s, amount, a.expire-some k ttl t (a.raised k t s))
          (elim (Bool-cases (leb (suc n) max_inflight)) [
            | inl e ↦
                (s', suc n, true, ground arith, counts, inl (refl, ground arith, ground arith))
            | inr e ↦ (
              a.lowered k t s',
              n,
              false,
              ground (arith, a.decr-some k t s'),
              rw (a.counter-lowered k t s', counts)
                  (lower-some t n (t + ttl * 1000000) (omega arith)),
              inr (refl, refl, ground arith),
            )
          ])

    arrives-IsKept :
        (t : ℕ) (st : State)
        → IsKept st
        → (st.held ≡ 0) ⊎ (t < st.until)
        → IsKept (step (arrives t) st)
    arrives-IsKept t st (h, g) w =
        let (s', m, ok, e, c, told) = try_acquire-Counts t st.held st.until st.store h w in
        elim told [
          | inl (p, q, l) ↦ rw (e, p) (inl (rw (sym q) c), omega arith)
          | inr (p, q, l) ↦ rw (e, p) (inl (rw (sym q) c), g)
        ]

    ended-IsKept :
        (t until n : ℕ) (s : r.Store)
        → Counts n until (a.counter (inflight r) s)
        → n ≤ max_inflight
        → (n ≡ 0) ⊎ (t < until)
        → IsKept (ended t until n s)
    unfolding release
    ended-IsKept t until zero s h g w = (h, g)
    ended-IsKept t until (suc n) s (inl e) g w =
        rw (a.decr-some (inflight r) t s, a.counter-lowered (inflight r) t s, e)
          (inl (lower-some t n until (ground arith)), omega arith)
    ended-IsKept t until (suc n) s (inr e) g w = ground arith

    step-IsKept :
        (e : Event) (st : State)
        → IsKept st
        → (st.held ≡ 0) ⊎ (time_of e < st.until)
        → IsKept (step e st)
    step-IsKept (arrives t) st h w = arrives-IsKept t st h w
    step-IsKept (ends t) st h w = ended-IsKept t st.until st.held st.store h.0 h.1 w

    -- Where Redis answers, and the maximum and the TTL are positive: after any sequence of arrivals and
    -- ends the counter stands at the number of the requests that are in, with the TTL of the latest
    -- arrival, or is not there while none is in, and the requests that are in are within the maximum;
    -- if it was so before, and every event while requests are in comes before that TTL has ended.
    pub steps-IsKept :
        (es : List Event) (st : State) → IsKept st → InTime es st → IsKept (steps es st)
    steps-IsKept [] st h w = h
    steps-IsKept (e ∷ es) st h (w, ws) = steps-IsKept es (step e st) (step-IsKept e st h w) ws
