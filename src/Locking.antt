-- ===== src/Locking.antt =====
-- plugins/memory/cashew/locking.py: the journal guards, the bounded scans and the advisory locks.
pub mod Journal
pub mod Scan
pub mod System
pub mod Lease
