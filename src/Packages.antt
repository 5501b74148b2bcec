-- ===== src/Packages.antt =====
-- The shared Go packages: packages/go.
pub mod Closer
pub mod Inbox
pub mod Outbox
pub mod Retry
pub mod Transactions
