-- ===== src/Hv.antt =====
-- lib/hv: the hypervisor.
pub mod Ram
pub mod PageTables
pub mod Build
