-- ===== src/Jobs/Retry/Examples.antt =====
-- Tests of the retry rules, and their theorems at concrete inputs.
use imagin.Prelude.{◌≡◌, refl, true, false, ◌*◌, ◌≤◌, arith}
use imagin.Jobs.Retry.{default_config, raw_delay, jitter_span, compute_backoff, is_retryable}
use imagin.Jobs.Retry.Bounds.{wait, delay, delay_range}

transient_retried : is_retryable "comfy_transient" 2 3 ≡ true
unfolding is_retryable
transient_retried = refl

exhausted : is_retryable "comfy_transient" 3 3 ≡ false
unfolding is_retryable
exhausted = refl

third_attempt : compute_backoff default_config 3 0 ≡ 6_400_000
unfolding compute_backoff raw_delay jitter_span
third_attempt = refl

small_draw : 700_000 ≤ 2 * jitter_span default_config 1
unfolding jitter_span raw_delay
small_draw = omega arith

delay_range_example :
    (80 * wait 0 ≤ 100 * delay 1 700_000)
    × (100 * delay 1 700_000 ≤ 120 * wait 0)
    × (1_600_000 ≤ delay 1 700_000)
    × (delay 1 700_000 ≤ 144_000_000)
delay_range_example = delay_range 0 700_000 small_draw
