-- ===== src/Pilot.antt =====
-- The local pilot: recserve_pilot/store.py, model.py, service.py and transport.py.
pub mod Payload
pub mod Tables
pub mod Store
pub mod Model
pub mod Apply
pub mod Transport
pub mod Fence
pub mod Journal
pub mod Service
pub mod Http
