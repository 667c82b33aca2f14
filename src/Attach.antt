-- ===== src/Attach.antt =====
-- attach/: the attaching client.
pub mod Errors
pub mod Loop
