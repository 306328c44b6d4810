-- ===== src/Jobs/Idempotency.antt =====
-- backend/app/domain/jobs/idempotency.py: a repeated key with the same payload is a replay, with
-- another payload a conflict.
use imagin.Prelude.{ℕ, String, Bool, false, Option, none, some, str_eq, if◌then◌else◌}
use imagin.Prelude.Json.{Json}

pub data Outcome : Type 0 where
  new replay conflict : Outcome

pub record IdempotencyCheck : Type 0 where
  pub outcome : Outcome
  pub existing_job_id : Option ℕ

abbrev same_hash : Option String → String → Bool
same_hash none h = false
same_hash (some g) h = str_eq h g

-- `json.dumps(payload, sort_keys=True, separators=(",", ":"))` and the hexadecimal SHA-256 of a
-- text.
module _ (dumps : Json → String) (sha256 : String → String) where
  unfoldable pub canonical_payload_hash : Json → String
  canonical_payload_hash payload = sha256 (dumps payload)

  unfoldable pub check_idempotency : Option ℕ → Option String → Json → IdempotencyCheck
  check_idempotency none existing_hash payload = record { outcome = new; existing_job_id = none }
  check_idempotency (some id) existing_hash payload =
      if same_hash existing_hash (canonical_payload_hash payload)
      then record { outcome = replay; existing_job_id = some id }
      else record { outcome = conflict; existing_job_id = some id }
