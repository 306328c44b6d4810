-- ===== src/Services.antt =====
-- The processes of backend/app/services.
pub mod Scheduler
pub mod Reconciler
mod Examples
