-- ===== src/App.antt =====
-- src/app: what the servers share.
pub mod Accounts
pub mod Config
