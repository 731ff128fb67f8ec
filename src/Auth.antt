-- ===== src/Auth.antt =====
-- Authentication (src/modules/auth): refresh tokens, sessions, and the check of access tokens.
pub mod Engine
pub mod Tokens
pub mod Sessions
pub mod Service
mod Tests
