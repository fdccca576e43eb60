-- ===== src/Circle.antt =====
-- internal/circle: what the service keeps of the Circle API.
pub mod PubkeyCache
pub mod Client
pub mod Signer
