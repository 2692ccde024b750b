-- ===== src/App.antt =====
-- The account service: recserve_app/ (selection.py, schema_v1.py, db.py, model.py, policy.py, api.py).
pub mod Selection
pub mod Schema
pub mod Accounts
pub mod Deletion
pub mod Cache
pub mod Principals
pub mod Policy
pub mod Recommend
pub mod Retrieval
pub mod Admission
pub mod Routes
pub mod Reconcile
pub mod Model
pub mod FoldIn
pub mod Identity
pub mod Settings
pub mod Telemetry
