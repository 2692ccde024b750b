-- ===== src/Agent.antt =====
-- The tuning agent: scripts/agent.py.
pub mod Space
pub mod Diagnosis
pub mod Planning
pub mod Gate
pub mod Loop
pub mod Run
