-- ===== src/RateLimit/Window.antt =====
-- The end of a window of backend/app/core/rate_limit.py.
use native.Mathlib.Nat.{le-div_iff_mul-le, mod-add-div', mod-lt}
use imagin.Prelude.{ℕ, ◌+◌, ◌-◌, ◌*◌, ◌/◌, ◌%◌, ◌≤◌, ◌<◌, arith, ◌≡◌}
use imagin.RateLimit.{window_of, seconds_until_window_reset}

-- From the start `q * length` of a window to the start of the next.
reaches :
    (n q x w : ℕ)
    → x + q * (w * 1000000) ≡ n
    → x < w * 1000000
    → (q + 1) * (w * 1000000) ≤ n + (w - x / 1000000 + 1) * 1000000
reaches n q x w e h =
    let next : (q + 1) * (w * 1000000) ≡ q * (w * 1000000) + w * 1000000 = ground arith in
    omega (arith, next)

-- For windows of at least a second: whoever waits for as many seconds as `seconds_until_window_reset`
-- says is in a later window, and that is from 2 seconds to one more than the window has.
pub seconds_until_window_reset_later :
    (now w : ℕ)
    → 0 < w
    → (window_of now w < window_of (now + seconds_until_window_reset now w * 1000000) w)
      × (2 ≤ seconds_until_window_reset now w)
      × (seconds_until_window_reset now w ≤ w + 1)
unfolding window_of seconds_until_window_reset
seconds_until_window_reset_later now w h =
    let positive : 0 < w * 1000000 = omega arith in
    let low = mod-lt now positive in
    let parts = mod-add-div' now (w * 1000000) in
    let later = reaches now (now / (w * 1000000)) (now % (w * 1000000)) w parts low in
    (omega (arith, (le-div_iff_mul-le positive).1 later), omega (arith, low), omega (arith, low))
