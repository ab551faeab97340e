-- ===== src/Sim.antt =====
-- src/penge/sim: the projections.
pub mod Routing
