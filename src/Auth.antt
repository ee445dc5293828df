-- ===== src/Auth.antt =====
-- The handlers of server/internal/handler/auth.go, a module for each.
pub mod SendCode
pub mod Login
pub mod DeleteAccount
