-- ===== src/Examples.antt =====
-- The theorems of the components at concrete files, accounts and requests.
pub mod Files
pub mod Accounts
pub mod Applied
pub mod Requests
pub mod Rendered
pub mod Monitored
pub mod Handlers
pub mod Observed
pub mod RolledBack
pub mod Restored
pub mod Commands
