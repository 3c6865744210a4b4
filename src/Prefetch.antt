-- ===== src/Prefetch.antt =====
-- plugins/memory/cashew/__init__.py: the slot of the background prefetch, its one worker, and the
-- identity that a result must match.
pub mod Identity
pub mod Slot
pub mod Worker
pub mod Current
