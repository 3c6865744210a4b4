-- ===== src/Auxiliary.antt =====
-- plugins/memory/cashew/config.py, second half: the calls of an auxiliary model through the host.
pub mod Role
pub mod Prompt
pub mod Calls
pub mod Permits
