-- ===== src/Vterm.antt =====
-- vterm/: the terminal session that clients attach to.
pub mod Mode
pub mod Varint
pub mod Responder
pub mod Session
pub mod Control
