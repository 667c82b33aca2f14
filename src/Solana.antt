-- ===== src/Solana.antt =====
-- walletsolana/: the on-chain view of sessions and grants, and the transactions that change it.
pub mod Accounts
pub mod Source
pub mod Message
pub mod Build
pub mod Subscribe
