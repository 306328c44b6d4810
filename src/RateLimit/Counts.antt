-- ===== src/RateLimit/Counts.antt =====
-- The calls of `check_rate_limit` within a window, backend/app/core/rate_limit.py.
use native.Mathlib.Nat.{mod-add-div', mod-lt}
use imagin.Prelude.{
  ℕ, zero, suc, ◌+◌, ◌-◌, ◌*◌, ◌/◌, ◌<◌, ◌≡◌, refl, String, false, Option, List, [], ◌∷◌, leb,
  if◌then◌else◌, All, length, min, arith,
}
use imagin.Prelude.Int.{pos}
use imagin.Prelude.Parts.{with_colon}
use imagin.Prelude.Python.{Python}
use imagin.RateLimit.{Redis, window_of, rate_limit_key, check_rate_limit, counted}
use imagin.RateLimit.Answers.{Counter, Answers, amount_at, raise, set_ttl}

-- Two times of one window are less than its length apart.
window_of_near :
    (q w t now : ℕ) → 0 < w → window_of t w ≡ q → window_of now w ≡ q → t < now + w * 1000000
unfolding window_of
window_of_near q w t now h e f =
    let positive : 0 < w * 1000000 = omega arith in
    let low = mod-lt t positive in
    let low' = mod-lt now positive in
    let same : t / (w * 1000000) ≡ now / (w * 1000000) = cc in
    let parts = mod-add-div' t (w * 1000000) in
    let parts' = mod-add-div' now (w * 1000000) in
    let same' : t / (w * 1000000) * (w * 1000000) ≡ now / (w * 1000000) * (w * 1000000) =
      rw same refl in
    omega (arith, low, parts, parts', same')

-- From one on, a counter keeps its TTL when it is raised.
raise-amount :
    (n t now : ℕ) (c : Option Counter)
    → amount_at t c ≡ pos (suc n)
    → amount_at now c ≡ pos (suc n)
    → amount_at t (raise now c) ≡ pos (suc n + 1)
raise-amount n t now c h g = ground arith

-- The first call of a window sets its TTL.
first-amount :
    (w t now : ℕ) (c : Option Counter)
    → amount_at now c ≡ pos 0
    → t < now + w * 1000000
    → amount_at t (set_ttl w now (raise now c)) ≡ pos 1
first-amount w t now c h g = ground arith

module _ (r : Redis) (a : Answers r) (py : Python) (scope user_id : String) (limit window : ℕ) where
  -- How many calls of `check_rate_limit` at these times are allowed.
  abbrev pub allowed : List ℕ → r.Store → ℕ
  allowed [] s = 0
  allowed (now ∷ times) s =
      let (ok, s') = check_rate_limit r py scope user_id limit window now s in
      let rest = allowed times s' in if ok then rest + 1 else rest

  abbrev pub key_at : ℕ → String
  key_at q = with_colon "rl" (with_colon scope (with_colon user_id (py.print_int (pos q))))

  -- The counter of the window `q` is `n` as long as the window lasts.
  abbrev pub Stays : ℕ → ℕ → r.Store → Type 0
  Stays q n s = (t : ℕ) → window_of t window ≡ q → amount_at t (a.counter (key_at q) s) ≡ pos n

  counted-Stays :
      (q n now : ℕ) (s : r.Store)
      → 0 < window
      → window_of now window ≡ q
      → Stays q n s
      → (s' : r.Store) × (counted r (key_at q) limit window now s (r.incr (key_at q) now s)
          ≡ (leb (n + 1) limit, s'))
        × Stays q (n + 1) s'
  counted-Stays q zero now s p w h =
      let k = key_at q in
      let s' = a.raised k now s in
      rw (a.incr-some k now s, h now w, a.expire-some k window now s')
        (
          a.timed k window now s',
          ground arith,
          λ t e.
              rw (a.counter-timed k window now s', a.counter-raised k now s)
                (first-amount window t now (a.counter k s) (h now w)
                  (window_of_near q window t now p e w)),
        )
  counted-Stays q (suc n) now s p w h =
      let k = key_at q in
      rw (a.incr-some k now s, h now w)
        (
          a.raised k now s,
          ground arith,
          λ t e.
              rw (a.counter-raised k now s)
                (raise-amount n t now (a.counter k s) (h t e) (h now w)),
        )

  check-Stays :
      (q n now : ℕ) (s : r.Store)
      → 0 < window
      → 0 < limit
      → window_of now window ≡ q
      → Stays q n s
      → (s' : r.Store) × (check_rate_limit r py scope user_id limit window now s
          ≡ (leb (n + 1) limit, s'))
        × Stays q (n + 1) s'
  unfolding check_rate_limit rate_limit_key
  check-Stays q n now s p h w c =
      let positive : leb limit 0 ≡ false = ground arith in
      rw (positive, w) (counted-Stays q n now s p w c)

  -- Where Redis answers, and the window and the limit are positive: if the counter of a window stands
  -- at `n` until the window ends, then of the calls within that window as many are allowed as the
  -- limit leaves above `n`, and no more.
  pub check_rate_limit-allowed :
      (q n : ℕ) (times : List ℕ) (s : r.Store)
      → 0 < window
      → 0 < limit
      → Stays q n s
      → All (λ now. window_of now window ≡ q) times
      → allowed times s ≡ min (length times) (limit - n)
  check_rate_limit-allowed q n [] s p h c w = omega arith
  check_rate_limit-allowed q n (now ∷ times) s p h c (here, later) =
      let (s', answer, stays) = check-Stays q n now s p h here c in
      rw answer (ground (arith, check_rate_limit-allowed q (n + 1) times s' p h stays later))
