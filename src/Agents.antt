-- ===== src/Agents.antt =====
-- domain/agents.py: attempts with their leases, runs with their status machine, and execution plans.
pub mod Enums
pub mod Attempt
pub mod Run
pub mod Plan
