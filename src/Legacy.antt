-- ===== src/Legacy.antt =====
-- The legacy user-mode kernel (legacy/src): paths of the file system.
pub mod Path
pub mod FileDesc
pub mod VmSpace
pub mod RegMgr
