-- ===== src/Examples.antt =====
-- Tests, and the theorems at concrete inputs: the byte streams and the sessions.
mod Streams
mod Sessions
mod Wallets
mod Handshakes
mod Certificates
mod Attaching
mod Chains
