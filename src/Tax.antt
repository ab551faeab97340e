-- ===== src/Tax.antt =====
-- src/penge/tax: the tax-lot book and the yearly calculators.
pub mod Money
pub mod Lots
pub mod Lager
pub mod Pal
pub mod Aktiesparekonto
pub mod Vorab
pub mod Dk
