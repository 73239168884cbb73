-- ===== src/Tests.antt =====
-- Witnesses: the theorems at concrete inputs.
pub mod Data
pub mod Answers
pub mod Accounts
pub mod Rules
pub mod Limits
pub mod Trail
pub mod Hosts
pub mod Hasher
pub mod Jobs
pub mod Keys
pub mod Origin
pub mod Pipeline
pub mod Webhook
pub mod Config
pub mod Tasks
pub mod Staff
pub mod Resolving
pub mod Mail
