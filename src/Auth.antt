-- ===== src/Auth.antt =====
-- auth/: identities, the handshakes and the transport wrapper.
pub mod Identity
pub mod Wallets
pub mod Script
pub mod Psk
pub mod Certs
pub mod Wrap
