-- ===== src/Auth.antt =====
-- packages/stagenethd/files/internal/auth: server-side sessions and the user database.
pub mod Sessions
pub mod Users
