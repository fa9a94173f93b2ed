-- ===== src/Hv/PageTables.antt =====
-- lib/hv/src/ram/x86_64.rs with `RamBuilder` of lib/hv/src/ram/builder.rs: the page tables that map
-- virtual addresses when the machine starts. A table is its 512 entries as a function: each index is
-- cut out by a mask of nine bits. The tables of a level are a map from their addresses; that of the
-- highest level has one, at the address of the page-map level-4 table.
pub mod Entries
pub mod Links
pub mod Descend
pub mod Walks
pub mod Pages
pub mod Ranges
pub mod Duplicates
use obliteration.Prelude.{
  ℕ, zero, suc, ◌+◌, ◌-◌, ◌*◌, ◌/◌, ◌%◌, ◌^◌, Bool, true, false, not, Option, none, some, List, [],
  ◌==◌, ltb, leb, if◌then◌else◌, bit_and, bit_or, Result, ok, err, Flow, done, panic, ◌>>=◌, ◌>>◌,
  assert, add64, unwrap_none, explicit, and_then_ok, map_err,
}
use obliteration.Hv.Ram.{Blocks, Ram, block_size, RamError, alloc}

abbrev pub Table : Type 0
Table = ℕ → ℕ

abbrev pub Tables : Type 0
Tables = ℕ → Option Table

abbrev pub zero_table : Table
zero_table i = 0

-- The fields of `RamBuilder`, with the blocks of its `Ram`.
pub record Builder : Type 0 where
  pub next : ℕ
  pub blocks : Blocks

-- `Context4K`.
pub record Context : Type 0 where
  pub root : ℕ
  pub pml4t : Tables
  pub pdpt : Tables
  pub pdt : Tables
  pub pt : Tables

pub data BuilderError : Type 0 where
  alloc_pml4_table alloc_pdp_table alloc_pd_table alloc_page_table_failed : RamError → BuilderError
  duplicated_virtual_addr : ℕ → BuilderError

-- The address in an entry.
abbrev pub entry_addr : ℕ → ℕ
entry_addr v = bit_and v 0xFFFFFFFFFF000

-- What `set_page_entry` writes: the address with the bits P and R/W.
unfoldable pub set_page_entry : ℕ → Flow ℕ
set_page_entry addr =
    assert (bit_and addr 0x7FF0000000000000 == 0)
    >> assert (bit_and addr 0xFFF == 0)
    >> done (bit_or (bit_or addr 1) 2)

abbrev pub pml4o : ℕ → ℕ
pml4o addr = bit_and addr 0xFF8000000000 / 2 ^ 39

abbrev pub pdpo : ℕ → ℕ
pdpo addr = bit_and addr 0x7FC0000000 / 2 ^ 30

abbrev pub pdo : ℕ → ℕ
pdo addr = bit_and addr 0x3FE00000 / 2 ^ 21

abbrev pub pto : ℕ → ℕ
pto addr = bit_and addr 0x1FF000 / 2 ^ 12

-- `tables[a][i] = e`, where `tables[a]` is `table`.
unfoldable pub write_entry : Tables → ℕ → Table → ℕ → ℕ → Tables
write_entry tables a table i e x =
    if x == a then some (λ j. if j == i then e else table j) else tables x

unfoldable pub insert_table : Tables → ℕ → Tables
insert_table tables a x = if x == a then some zero_table else tables x

-- `len.checked_next_multiple_of(size).unwrap()`.
unfoldable pub next_multiple : ℕ → ℕ → Flow ℕ
next_multiple len size =
    let whole = (len + (size - 1)) / size * size in
    if ltb whole (2 ^ 64) then done whole else panic unwrap_none

-- The table under entry `i` of table `a`, and the two levels and the builder as they are then.
pub record Down : Type 0 where
  pub child : ℕ
  pub upper : Tables
  pub lower : Tables
  pub builder : Builder

-- The last `if` of the loop, and the entry of the page.
unfoldable pub set_page : Tables → ℕ → ℕ → ℕ → Flow (Result Tables BuilderError)
set_page pt a addr paddr = elim (pt a) [
  | none ↦ panic unwrap_none
  | some table ↦ elim (table (pto addr) == 0) [
    | false ↦ done (err (duplicated_virtual_addr addr))
    | true ↦ set_page_entry paddr >>= λ e. done (ok (write_entry pt a table (pto addr) e))
  ]
]

-- `commit` and `map` are the host's, as in `alloc`.
module _ (commit map : ℕ → ℕ → Bool) (r : Ram) where
  unfoldable pub alloc_page_table : Builder → Flow (Result (ℕ × Builder) RamError)
  alloc_page_table b = next_multiple 4096 (block_size r) >>= λ len.
      assert (b.next % 4096 == 0)
      >> and_then_ok (alloc commit map r b.next len b.blocks)
          λ after. done (ok (b.next, record { next = b.next + len; blocks = after }))

  -- Each `match` of `setup_4k_page_tables` on an entry that stands for a table: a zero entry gets a
  -- new one.
  unfoldable pub descend :
      (RamError → BuilderError)
      → Tables
      → Tables
      → ℕ
      → ℕ
      → Builder
      → Flow (Result Down BuilderError)
  descend failed upper lower a i b = elim (upper a) [
    | none ↦ panic unwrap_none
    | some table ↦ elim (table i == 0) [
      | true ↦ and_then_ok (map_err failed (alloc_page_table b)) λ n. set_page_entry n.0 >>= λ e.
          elim (lower n.0) [
            | some there ↦ panic explicit
            | none ↦ done (
                ok (record {
                  child = n.0;
                  upper = write_entry upper a table i e;
                  lower = insert_table lower n.0;
                  builder = n.1;
                }))
          ]
      | false ↦ elim (lower (entry_addr (table i))) [
        | none ↦ panic unwrap_none
        | some there ↦ done (
            ok (record { child = entry_addr (table i); upper = upper; lower = lower; builder = b }))
      ]
    ]
  ]

  -- One round of the loop: the page of `addr` is mapped to that at `sum`, which the source adds up once
  -- the tables are there.
  unfoldable pub map_page :
      Context → Builder → ℕ → Flow ℕ → Flow (Result (Context × Builder) BuilderError)
  map_page cx b addr sum =
      and_then_ok (descend alloc_pdp_table cx.pml4t cx.pdpt cx.root (pml4o addr) b) λ d3.
        and_then_ok (descend alloc_pd_table d3.lower cx.pdt d3.child (pdpo addr) d3.builder) λ d2.
          and_then_ok
            (descend alloc_page_table_failed d2.lower cx.pt d2.child (pdo addr) d2.builder)
            λ d1. and_then_ok (sum >>= λ paddr. set_page d1.lower d1.child addr paddr) λ pt. done (
              ok (
                record {
                  root = cx.root;
                  pml4t = d3.upper;
                  pdpt = d2.upper;
                  pdt = d1.upper;
                  pt = pt;
                },
                d1.builder,
              ))

  -- The loop over the `n` pages of a range from `off` on.
  unfoldable pub map_pages :
      ℕ → Context → Builder → ℕ → ℕ → ℕ → Flow (Result (Context × Builder) BuilderError)
  map_pages zero cx b vaddr paddr off = done (ok (cx, b))
  map_pages (suc n) cx b vaddr paddr off = add64 vaddr off >>= λ addr.
      and_then_ok (map_page cx b addr (add64 paddr off))
        λ s. map_pages n s.0 s.1 vaddr paddr (off + 4096)

  unfoldable pub setup_4k_page_tables :
      Context → Builder → ℕ → ℕ → ℕ → Flow (Result (Context × Builder) BuilderError)
  setup_4k_page_tables cx b vaddr paddr len =
      assert (vaddr % 4096 == 0)
      >> assert (paddr % 4096 == 0)
      >> assert (len % 4096 == 0)
      >> map_pages (len / 4096) cx b vaddr paddr 0
