-- ===== src/Tests.antt =====
-- Witnesses of the theorems and runs of the definitions on concrete inputs.
mod ConfigEnv
mod HvRam
mod HvPageTables
mod DmemReserve
mod DmemSetup
mod KernelGutex
mod KernelHeap
mod KernelMemoryMap
mod LegacyPath
mod LegacyRegMgr
mod LegacyFileDesc
mod LegacyVmSpace
mod LegacyVmUpdate
mod LegacyVmMmap
