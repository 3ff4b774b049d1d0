-- ===== src/Tests.antt =====
-- Tests on concrete data: each theorem with conditions is applied where they hold.
pub mod Data
mod Wallets
mod Keys
mod Access
mod Shuffled
mod Client
mod Forms
mod Pages
mod Registry
mod Accounts
mod Dashboards
