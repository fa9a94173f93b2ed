-- ===== src/Kernel.antt =====
-- The kernel (kernel/src): the physical memory map and the direct memory system.
pub mod Dmem
pub mod VmHeap
pub mod Gutex
pub mod MemoryMap
