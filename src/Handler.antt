-- ===== src/Handler.antt =====
-- internal/handler: the requests of the HTTP interface.
pub mod Backend
pub mod WebhookUrl
pub mod Execute
pub mod Query
pub mod Lookups
pub mod RateLimit
