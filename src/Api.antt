-- ===== src/Api.antt =====
-- internal/api: what the web interface lets through.
pub mod Limiter
pub mod SignIn
