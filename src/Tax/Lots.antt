-- ===== src/Tax/Lots.antt =====
-- src/penge/tax/lots.py: the tax-lot book under the average-cost method.
pub mod Events
pub mod Book
pub mod Queries
pub mod Invariant
pub mod Failures
pub mod Movements
