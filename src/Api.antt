-- ===== src/Api.antt =====
-- prellblock-client-api/src: the data that clients and RPUs exchange.
pub mod Account
pub mod Transaction
pub mod Query
pub mod Block
