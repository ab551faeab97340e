-- ===== src/Tests.antt =====
-- Runs of the model on concrete inputs, and the theorems applied to them.
pub mod Lots
pub mod Calculators
pub mod Pensions
pub mod Refresh
pub mod Routing
pub mod Household
pub mod Connections
