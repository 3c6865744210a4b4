-- ===== src/Sync.antt =====
-- plugins/memory/cashew/__init__.py: the queue of completed turns, its producer `sync_turn`, the
-- worker that drains it and the sentinel of a shutdown, with the ledger of health.py.
pub mod Turns
pub mod Worker
pub mod Calls
pub mod Accounting
pub mod Window
pub mod Drain
