-- ===== src/Api.antt =====
-- The API's own state: the bank connections (src/penge/api/connections).
pub mod Connections
