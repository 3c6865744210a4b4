-- ===== src/Telemetry.antt =====
-- plugins/memory/cashew/error_tracking.py: what may leave the process in a diagnostic event.
-- An exception enters as the name of its class.
pub mod Buckets
pub mod Events
pub mod Privacy
pub mod Canonical
pub mod Worker
