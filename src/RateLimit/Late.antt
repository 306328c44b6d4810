-- ===== src/RateLimit/Late.antt =====
-- A request of the gate of backend/app/core/rate_limit.py that ends after the TTL of the latest
-- arrival.
use mathlib.Core.Path.{subst}
use imagin.Prelude.{
  ℕ, zero, suc, ◌+◌, ◌*◌, ◌≤◌, ◌<◌, ◌≡◌, refl, sym, ◌⊎◌, inl, inr, true, false, Option, none, some,
  List, [], ◌∷◌, leb, arith,
}
use imagin.Prelude.Int.{negsuc}
use imagin.RateLimit.{Redis, inflight, try_acquire, release}
use imagin.RateLimit.Answers.{Counter, Answers, lower}
use imagin.RateLimit.Gate.{
  State, Event, arrives, ends, step, steps, Counts, IsKept, try_acquire-Counts,
}

-- So many arrivals at one time.
abbrev pub burst : ℕ → ℕ → List Event
burst t zero = []
burst t (suc k) = arrives t ∷ burst t k

lower-gone :
    (t n until : ℕ) (c : Option Counter)
    → Counts (suc n) until c
    → until ≤ t
    → lower t c ≡ some (record { amount = negsuc 0; until = none })
lower-gone t n until c h l = ground arith

module _ (r : Redis) (max_inflight ttl : ℕ) (a : Answers r) (positive : 0 < max_inflight)
    (lasting : 0 < ttl) where
  burst-step :
      (t m until : ℕ) (st : State r max_inflight ttl)
      → Counts m until (a.counter (inflight r) st.store)
      → (m ≡ 0) ⊎ (t < until)
      → m < max_inflight
      → ((step r max_inflight ttl (arrives t) st).held ≡ st.held + 1)
        × Counts
            (m + 1)
            (t + ttl * 1000000)
            (a.counter (inflight r) (step r max_inflight ttl (arrives t) st).store)
  burst-step t m until st h w l =
      let (s', m', ok, e, c, told) =
        try_acquire-Counts r max_inflight ttl a positive lasting t m until st.store h w in
      elim told [
        | inl (p, q, g) ↦ rw (e, p) (refl, inl (rw (sym q) c))
        | inr (p, q, g) ↦ absurd (omega arith)
      ]

  -- With the counter at `m`, as many of a burst get in as the counter leaves.
  burst-held :
      (t k m until : ℕ) (st : State r max_inflight ttl)
      → Counts m until (a.counter (inflight r) st.store)
      → (m ≡ 0) ⊎ (t < until)
      → m + k ≤ max_inflight
      → (steps r max_inflight ttl (burst t k) st).held ≡ st.held + k
  burst-held t zero m until st h w l = omega arith
  burst-held t (suc k) m until st h w l =
      let (held, counts) = burst-step t m until st h w (omega arith) in
      let rest =
        burst-held t k (m + 1) (t + ttl * 1000000) (step r max_inflight ttl (arrives t) st) counts
          (inr (omega arith)) (omega arith) in
      omega (arith, rest, held)

  -- An arrival that finds the counter at -1 leaves it at 0.
  first_in :
      (t : ℕ) (s : r.Store)
      → a.counter (inflight r) s ≡ some (record { amount = negsuc 0; until = none })
      → (s' : r.Store) × (try_acquire r max_inflight ttl t s ≡ (true, s'))
        × Counts 0 (t + ttl * 1000000) (a.counter (inflight r) s')
  unfolding try_acquire
  first_in t s h =
      let k = inflight r in
      let some_limit : leb max_inflight 0 ≡ false = ground arith in
      rw (some_limit, a.incr-some k t s, h, a.expire-some k ttl t (a.raised k t s))
        (
          a.timed k ttl t (a.raised k t s),
          ground arith,
          inl (rw (a.counter-timed k ttl t (a.raised k t s), a.counter-raised k t s, h) refl),
        )

  first-step :
      (t : ℕ) (st : State r max_inflight ttl)
      → a.counter (inflight r) st.store ≡ some (record { amount = negsuc 0; until = none })
      → ((step r max_inflight ttl (arrives t) st).held ≡ st.held + 1)
        × Counts 0
            (t + ttl * 1000000)
            (a.counter (inflight r) (step r max_inflight ttl (arrives t) st).store)
  first-step t st h = let (s', e, c) = first_in t st.store h in rw e (refl, c)

  -- `DECR` on a counter whose TTL has ended starts a new one at -1, which has no TTL.
  late_step :
      (t n : ℕ) (st : State r max_inflight ttl)
      → Counts st.held st.until (a.counter (inflight r) st.store)
      → st.held ≡ suc n
      → st.until ≤ t
      → ((step r max_inflight ttl (ends t) st).held ≡ n)
        × (a.counter (inflight r) (step r max_inflight ttl (ends t) st).store
            ≡ some (record { amount = negsuc 0; until = none }))
  unfolding release
  late_step t n st h e l =
      rw (e, a.decr-some (inflight r) t st.store, a.counter-lowered (inflight r) t st.store)
        (
          refl,
          lower-gone t n st.until (a.counter (inflight r) st.store)
              (subst (λ x. Counts x st.until (a.counter (inflight r) st.store)) e h) l,
        )

  -- Where Redis answers, and the maximum and the TTL are positive: if the counter stands at the number
  -- `n + 1` of the requests that are in, with the TTL of the latest arrival, and one of these ends after
  -- that TTL, then a burst of one request more than the maximum gets in as a whole, besides the `n`
  -- requests that are still in.
  pub late_end :
      (t u n : ℕ) (st : State r max_inflight ttl)
      → IsKept r max_inflight ttl a positive lasting st
      → st.held ≡ suc n
      → st.until ≤ t
      → (steps r max_inflight ttl (ends t ∷ burst u (suc max_inflight)) st).held
        ≡ n + suc max_inflight
  late_end t u n st (h, g) e l =
      let (after, low) = late_step t n st h e l in
      let (held, counts) = first-step u (step r max_inflight ttl (ends t) st) low in
      let rest =
        burst-held u max_inflight 0 (u + ttl * 1000000)
          (step r max_inflight ttl (arrives u) (step r max_inflight ttl (ends t) st)) counts
          (inl refl) (omega arith) in
      omega (arith, rest, held, after)
