-- ===== src/Ops.antt =====
-- src/penge/ops/net_worth_refresh.py: the scheduled sync and the guarded refresh of the marts.
pub mod Marker
pub mod Refresh
pub mod Lock
pub mod Promotion
