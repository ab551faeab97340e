-- ===== src/Tax/Dk.antt =====
-- src/penge/tax/dk: the Danish state pension and the surtax on pension income.
pub mod Folkepension
pub mod Topskat
