-- ===== src/Config.antt =====
-- The crate config, which the launcher and the kernel share.
pub mod Env
