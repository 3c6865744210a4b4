-- ===== src/Config.antt =====
-- plugins/memory/cashew/config.py: the persisted settings, their validation, and the two limits on
-- auxiliary calls.
pub mod Fields
pub mod Normal
pub mod Files
pub mod RoundTrip
pub mod Save
