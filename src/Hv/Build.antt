-- ===== src/Hv/Build.antt =====
-- lib/hv/src/ram/builder.rs with `build_4k_page_tables` of lib/hv/src/ram/x86_64.rs: the memory that a
-- machine starts with, and the page tables of all of it. The bytes that a block is filled with are not
-- kept, nor are the guards: the blocks stay locked.
pub mod Mappings
use obliteration.Prelude.{
  ℕ, ◌+◌, ◌-◌, ◌*◌, ◌/◌, ◌%◌, ◌^◌, Bool, Option, none, some, List, [], ◌∷◌, ◌++◌, ◌==◌, ltb, leb,
  if◌then◌else◌, Result, ok, err, Flow, done, panic, ◌>>=◌, ◌>>◌, assert, and_then_ok, map_err,
  overflow, unfinished,
}
use obliteration.Hv.Ram.{Blocks, Ram, block_size, RamError, invalid_addr, alloc}
use obliteration.Hv.PageTables.{
  Tables, Builder, Context, BuilderError, alloc_pml4_table, next_multiple, alloc_page_table,
  insert_table, setup_4k_page_tables,
}

pub record AllocInfo : Type 0 where
  pub paddr : ℕ
  pub vaddr : ℕ
  pub len : ℕ

-- `RamBuilder`: where it has got to, with the blocks of the memory, and what it has given out.
pub record RamBuilder : Type 0 where
  pub builder : Builder
  pub allocated : List AllocInfo

-- `RamBuilder::new`.
unfoldable pub new_builder : Ram → Blocks → ℕ → Flow RamBuilder
new_builder r blocks start_addr =
    assert (start_addr % block_size r == 0)
    >> done (record { builder = record { next = start_addr; blocks = blocks }; allocated = [] })

-- `next_multiple_of`.
unfoldable pub next_multiple_of : ℕ → ℕ → Flow ℕ
next_multiple_of len size =
    let whole = (len + (size - 1)) / size * size in
    if ltb whole (2 ^ 64) then done whole else panic overflow

-- `checked_next_multiple_of`.
unfoldable pub checked_next_multiple_of : ℕ → ℕ → Option ℕ
checked_next_multiple_of len size =
    let whole = (len + (size - 1)) / size * size in if ltb whole (2 ^ 64) then some whole else none

abbrev pub no_tables : Tables
no_tables a = none

-- The context with the page-map level-4 table alone.
abbrev pub first_context : ℕ → Context
first_context root = record {
  root = root;
  pml4t = insert_table no_tables root;
  pdpt = no_tables;
  pdt = no_tables;
  pt = no_tables;
}

abbrev pub unwrap_or : Option ℕ → ℕ → ℕ
unwrap_or none d = d
unwrap_or (some a) d = a

module _ (commit map : ℕ → ℕ → Bool) (r : Ram) where
  -- `RamBuilder::alloc`: the address of the memory, and the builder.
  unfoldable pub alloc_ram : RamBuilder → Option ℕ → ℕ → Flow (Result (ℕ × RamBuilder) RamError)
  alloc_ram b vaddr len =
      let paddr = b.builder.next in
      let at = unwrap_or vaddr paddr in
      assert (at % r.vm_page_size == 0) >> elim (checked_next_multiple_of len (block_size r)) [
        | none ↦ done (err invalid_addr)
        | some whole ↦ and_then_ok (alloc commit map r paddr whole b.builder.blocks) λ after. done (
            ok (
              paddr,
              record {
                builder = record { next = paddr + whole; blocks = after };
                allocated = b.allocated ++ (record { paddr = paddr; vaddr = at; len = len } ∷ []);
              },
            ))
      ]

  -- The two loops of `build_4k_page_tables`.
  unfoldable pub map_allocated :
      List AllocInfo → Context → Builder → Flow (Result (Context × Builder) BuilderError)
  map_allocated [] cx b = done (ok (cx, b))
  map_allocated (info ∷ rest) cx b = next_multiple_of info.len r.vm_page_size >>= λ len.
      and_then_ok (setup_4k_page_tables commit map r cx b info.vaddr info.paddr len)
        λ s. map_allocated rest s.0 s.1

  unfoldable pub map_devices :
      List AllocInfo → Context → Builder → Flow (Result (Context × Builder) BuilderError)
  map_devices [] cx b = done (ok (cx, b))
  map_devices (dev ∷ rest) cx b = next_multiple dev.len r.vm_page_size >>= λ len.
      assert (leb r.len dev.paddr)
      >> and_then_ok (setup_4k_page_tables commit map r cx b dev.vaddr dev.paddr len)
          λ s. map_devices rest s.0 s.1

  -- The tables, whose `root` is the address that the source returns.
  unfoldable pub build_4k_page_tables :
      RamBuilder → List AllocInfo → Flow (Result (Context × Builder) BuilderError)
  build_4k_page_tables b devices =
      and_then_ok (map_err alloc_pml4_table (alloc_page_table commit map r b.builder)) λ n.
        and_then_ok (map_allocated b.allocated (first_context n.0) n.1)
          λ s. map_devices devices s.0 s.1

  -- The match on the size of a page, on x86-64.
  unfoldable pub build_page_table :
      RamBuilder → List AllocInfo → Flow (Result (Context × Builder) BuilderError)
  build_page_table b devices =
      if r.vm_page_size == 0x1000
      then build_4k_page_tables b devices
      else if r.vm_page_size == 0x4000
      then build_4k_page_tables b devices
      else panic unfinished
