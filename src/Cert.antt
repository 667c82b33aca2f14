-- ===== src/Cert.antt =====
-- cert/: the certificates of a workspace, and the file of the revoked ones.
pub mod Claims
pub mod Revocation
