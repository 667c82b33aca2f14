-- ===== src/Streambuf.antt =====
-- streambuf/: the replay ring of PTY output and the bounded queue of pending input.
pub mod Ring
pub mod Queue
