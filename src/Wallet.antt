-- ===== src/Wallet.antt =====
-- wallet/: the credentials of wallet authentication.
pub mod Text
pub mod Caps
pub mod Attenuation
pub mod Base58
pub mod Delegation
pub mod Fold
pub mod Lenient
