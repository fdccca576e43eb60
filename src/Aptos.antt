-- ===== src/Aptos.antt =====
-- internal/aptos: what the submitter and the handlers use of the node's client.
pub mod Errors
pub mod Client
pub mod Abi
pub mod Args
pub mod Entry
