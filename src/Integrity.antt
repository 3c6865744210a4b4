-- ===== src/Integrity.antt =====
-- plugins/memory/cashew/integrity.py: the work budget of an audit, and the operator's repair of a
-- profile. The repair algorithm itself is upstream's, and a parameter.
pub mod Budget
pub mod Verify
pub mod Delegate
pub mod Repair
pub mod Transaction
