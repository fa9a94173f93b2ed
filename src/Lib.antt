-- ===== src/Lib.antt =====
-- Models of parts of Obliteration, a kernel and user-mode reimplementation of a console's system
-- software, with the theorems that make those parts correct.
--
-- The program. `gui` starts a virtual machine through `lib/hv` and boots `kernel` in it; `config` and
-- `lib/x86-64`, `lib/aarch64`, `lib/bitflag` and `lib/krt` are shared by both sides. `legacy` is the
-- older kernel, which runs in a process of the host. The files of this library follow the
-- repository's directories:
--
--   Prelude          numbers, lists, texts; `Flow`, the values and panics of Rust code
--   Prelude/Bits, BitOr, BitXor   masks that are powers of two, bits that are set or flipped
--   Prelude/Steps    a range in steps, as `step_by` takes it
--   Config/Env       config/src/lib.rs: the array of environment variables, `extend_env`, `EnvIter`
--     Encode, RoundTrip   what the array holds, and reading it back
--   Kernel/Dmem      kernel/src/dmem/mod.rs and `MemoryInfo` of kernel/src/main.rs: `reserve_phys`
--     Blocks         the blocks that the array stands for, and the search over a list of them
--     Arrays, Refine, Search, Reserve, Conserve   the array against the list
--     Configs, Setup `DMEM_CONFIGS`, `Dmem::new`, `load_mode`, `adjust_pmap`
--     Ends, Modes    the loops of `new`, and its modes
--   Kernel/MemoryMap kernel/src/main.rs: the loop of `load_memory_map` that fills `physmap`
--     Regions, Loading    one entry, and the array in the end
--   Kernel/VmHeap    kernel/src/malloc/vm.rs: the table of zones of the heap
--     Zones          the zone that a size is given
--   Kernel/Gutex     kernel/src/lock/gutex: the mutex of a group, and the counts of its members
--     Counts, Exclusion   the guards that are alive, and what the counts say of them
--     Outcomes       `read` and `write` on each branch
--   Hv/Ram           lib/hv/src/ram/mod.rs and lock.rs: `alloc`, `dealloc`, `lock`, `LockedMem::drop`
--     Blocks, Inserts, Allocs, Passes, Locking, Frees, Removals   the map of blocks, call by call
--     System, Safety, Steps   the threads that call, in any order, and who holds a block
--   Hv/PageTables    lib/hv/src/ram/x86_64.rs: `setup_4k_page_tables`, the four levels of tables
--     Entries, Links the bits of an entry, and what a level refers to
--     Descend, Pages, Ranges, Duplicates   one level, one page, a range, a page that is mapped
--     Walks          the entries in use, and the translation of the processor, which tests P and R/W
--   Hv/Build         lib/hv/src/ram/builder.rs with `build_4k_page_tables` of lib/hv/src/ram/x86_64.rs
--     Mappings       the mappings of the finished tables
--   Legacy/Path      legacy/src/fs/path.rs: `VPath`, `VPathBuf`, `Components`, `path_contains`
--     Names          the list of names that a path stands for
--     Bytes, Refine, Valid, Extension, Contains   the operations against that list
--   Legacy/FileDesc  legacy/src/process/filedesc.rs: the table of descriptors
--     Table, Laws    the search for a free slot; opening, looking up and closing
--   Legacy/VmSpace   legacy/src/vm/vm.rs and legacy/src/vm/iter.rs: the allocations, `munmap`
--     Cut            the list with a range cut out, which is what `munmap` should leave
--     Start, Edit, Unmap, Refine   the iterator, the edits of the map, the loop, and all of it
--     Lookup         what an address stands for
--     Update         `update`, behind `mprotect` and `mname`: its two loops
--     Update/Pieces, Pages   the list that it should leave
--     Update/Select, Each, Begin, Range, Outcome   the loops against that list, and the three ends
--     Mmap           `mmap`, `map` and `alloc`, the host being a parameter
--     Mmap/Insert, Reserved, Granted   a new allocation in the map, and what `mmap` comes to
--   Legacy/RegMgr    legacy/src/regmgr/mod.rs: the registry, with legacy/src/ucred for the process
--     Entry, Table   an entry and the errors, and the table of all entries
--     Words          the decryption of a key
--     Keys, Lookup   the keys of an entry, and the search for the entry of a key
--     Codec, Decode  the words that name a key, as a program makes them and as the code reads them
--     Setting, Calls reading and setting a number, and both system calls
--   Tests            witnesses and runs on concrete inputs
--
-- Conventions. A u64 or usize is a native number; `add64` and `sub64` panic where the checked
-- arithmetic of a debug build does, and indexing panics out of range. Pointers of
-- legacy/src/vm/vm.rs wrap around at 2 ^ 64, as does what `align_virtual_page` adds to them. A `todo!()` is the panic
-- `unfinished`, a `panic!` is `explicit`. Code that changes an object takes the object and returns
-- it. A text is the list of its bytes. What the host answers, such as whether it gives memory back, is
-- a parameter.
--
-- Bounds and fuel. `reserve_phys` recurs on the index of the block, which falls by two. The loop over
-- the rest of the memory gets one round for each two megabytes and one more, and the search of
-- `adjust_pmap` one round for each entry: the panic `stalled` stands for fuel that ran out. The
-- iterator over components gets one call for each byte of the path, since a call takes one at least,
-- and that over variables one more. The sizes of zones double from 16 and pass a page in the twelfth
-- round; a zone is pushed for at most each 16 bytes of its size and once more. A wait on a condition
-- variable cuts `lock` and `dealloc` into rounds: a round ends where the code waits, and the next one
-- starts from the address that it had got to, at any later time and as often as the code is woken.
-- The loops over the keys of a registry entry count the keys that are left.
--
-- Not modelled: what is only passed on to the host, the graphics and the hypervisor's drivers, names
-- and logs that are only printed, and the parts of the manifest that are marked so.
pub mod Prelude
pub mod Config
pub mod Hv
pub mod Kernel
pub mod Legacy
mod Tests
