-- ===== src/Jobs/Retry/Bounds.antt =====
-- The range of the delays.
use imagin.Prelude.{ℕ, zero, suc, min, refl, ◌-◌, ◌*◌, ◌^◌, ◌≤◌, ◌<◌, ◌≡◌, arith}
use imagin.Jobs.Retry.{default_config, raw_delay, jitter_span, compute_backoff}
use native.Mathlib.Nat.{pow-suc}

pow_pos : (n : ℕ) → 0 < 2 ^ n
pow_pos zero = omega arith
pow_pos (suc n) = rw pow-suc (omega (arith, pow_pos n))

pow_mono : (n m : ℕ) → n ≤ m → 2 ^ n ≤ 2 ^ m
pow_mono zero m h = pow_pos m
pow_mono (suc n) zero h = absurd (omega arith)
pow_mono (suc n) (suc m) h = simp pow-suc (omega (arith, pow_mono n m (omega arith)))

abbrev pub delay : ℕ → ℕ → ℕ
delay = compute_backoff default_config

raw_range :
    (n : ℕ) → (2_000_000 ≤ raw_delay default_config n) × (raw_delay default_config n ≤ 120_000_000)
unfolding raw_delay
raw_range n = omega (arith, pow_pos (n - 1))

-- The wait before jitter, from the first attempt on: 2 s, doubled with each attempt, up to 120 s.
abbrev pub wait : ℕ → ℕ
wait zero = 2_000_000
wait (suc k) = min (2 * wait k) 120_000_000

wait_powers : (k : ℕ) → min (2_000_000 * 2 ^ k) 120_000_000 ≡ wait k
wait_powers zero = refl
wait_powers (suc k) = omega (arith, pow-suc 2 k, wait_powers k)

raw_delay-wait : (k : ℕ) → raw_delay default_config (suc k) ≡ wait k
unfolding raw_delay
raw_delay-wait k = let e : suc k - 1 ≡ k = omega arith in rw e (wait_powers k)

-- Any draw within the span gives a delay within 20 % of the wait of that attempt, which is 2 s for
-- the first and twice the wait before, up to 120 s, for each later one; so the delay is from 1.6 s
-- to 144 s.
pub delay_range :
    (k draw : ℕ)
    → draw ≤ 2 * jitter_span default_config (suc k)
    → (80 * wait k ≤ 100 * delay (suc k) draw)
      × (100 * delay (suc k) draw ≤ 120 * wait k)
      × (1_600_000 ≤ delay (suc k) draw)
      × (delay (suc k) draw ≤ 144_000_000)
unfolding compute_backoff jitter_span
delay_range k draw h = omega (arith, raw_range (suc k), raw_delay-wait k)

-- Without jitter a later attempt never waits less, and from the seventh attempt on the wait is
-- the ceiling of 120 s.
pub raw_delay_mono :
    (n m : ℕ)
    → n ≤ m
    → (raw_delay default_config n ≤ raw_delay default_config m)
      × (7 ≤ m → raw_delay default_config m ≡ 120_000_000)
unfolding raw_delay
raw_delay_mono n m h = (
  omega (arith, pow_mono (n - 1) (m - 1) (omega arith)),
  λ k. omega (arith, pow_mono 6 (m - 1) (omega arith)),
)
