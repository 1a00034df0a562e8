-- ===== src/Session.antt =====
-- botocore/session.py: the variables of a `Session` and its `ComponentLocator`.
pub mod Variables
pub mod Components
pub mod Samples
