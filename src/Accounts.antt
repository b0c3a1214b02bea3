-- ===== src/Accounts.antt =====
-- apps/accounts: profiles and their verification, who may do what, and new accounts.
pub mod Permissions
pub mod Verification
pub mod Queue
pub mod Registration
