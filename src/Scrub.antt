-- ===== src/Scrub.antt =====
-- plugins/memory/cashew/log_filter.py: what a log record keeps when the filter lets it through.
pub mod Arguments
pub mod Filter
pub mod Clean
