-- ===== src/Jobs/Retry.antt =====
-- backend/app/domain/jobs/retry.py: which errors are retried, and after how long. Durations are
-- whole microseconds, the jitter ratio is in percent, and the growth factor is a whole number, as
-- in the only configuration that the program uses.
pub mod Bounds
pub mod Examples
use imagin.Prelude.{
  ℕ, ◌+◌, ◌-◌, ◌*◌, ◌/◌, ◌^◌, min, String, Bool, false, List, [], ◌∷◌, leb, contains, if◌then◌else◌,
}

abbrev pub retryable_error_codes : List String
retryable_error_codes =
    "comfy_timeout" ∷ "comfy_disconnect" ∷ "comfy_transient" ∷ "worker_lease_expired"
    ∷ "worker_unreachable" ∷ []

abbrev pub non_retryable_error_codes : List String
non_retryable_error_codes =
    "comfy_rejected" ∷ "workflow_invalid" ∷ "quota_exceeded" ∷ "malformed_response"
    ∷ "comfy_permanent" ∷ []

unfoldable pub is_retryable : String → ℕ → ℕ → Bool
is_retryable error_code attempt_no max_attempts =
    if leb max_attempts attempt_no
    then false
    else if contains error_code non_retryable_error_codes
    then false
    else contains error_code retryable_error_codes

pub record BackoffConfig : Type 0 where
  pub base : ℕ
  pub factor : ℕ
  pub max_delay : ℕ
  pub jitter_percent : ℕ

-- `BackoffConfig()`: 2 s, doubled, up to 120 s, with a jitter of 20 %.
abbrev pub default_config : BackoffConfig
default_config = record {
  base = 2_000_000;
  factor = 2;
  max_delay = 120_000_000;
  jitter_percent = 20;
}

-- `max(attempt_no - 1, 0)` is subtraction on ℕ.
unfoldable pub raw_delay : BackoffConfig → ℕ → ℕ
raw_delay cfg attempt_no = min (cfg.base * cfg.factor ^ (attempt_no - 1)) cfg.max_delay

unfoldable pub jitter_span : BackoffConfig → ℕ → ℕ
jitter_span cfg attempt_no = raw_delay cfg attempt_no * cfg.jitter_percent / 100

-- `rng.uniform(-jitter_span, jitter_span)` is `draw - jitter_span`, for a draw up to twice the
-- span; `max(0.0, …)` is subtraction on ℕ.
unfoldable pub compute_backoff : BackoffConfig → ℕ → ℕ → ℕ
compute_backoff cfg attempt_no draw = raw_delay cfg attempt_no + draw - jitter_span cfg attempt_no
