-- ===== src/Postgres.antt =====
-- The durable job queue of backend/app/adapters/queue/postgres.py. Each method is one transaction, and
-- a transaction is one step; the rows that other transactions hold are an argument of the claims.
pub mod Tables
pub mod Events
pub mod Reads
pub mod Rows
pub mod Examples
pub mod Attempts
pub mod Commits
pub mod Claim
pub mod Marks
