-- ===== src/Jobs.antt =====
-- The job domain of backend/app/domain/jobs: states, retries, workflows, and the admission of jobs.
pub mod Fairness
pub mod StateMachine
pub mod Retry
pub mod Registry
pub mod Profiles
pub mod Overrides
pub mod Idempotency
