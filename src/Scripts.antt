-- ===== src/Scripts.antt =====
-- The checks of scripts/: bundle.py, regression_gate.py and perf_ci.py.
pub mod Bundle
pub mod Regression
