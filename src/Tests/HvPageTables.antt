-- ===== src/Tests/HvPageTables.antt =====
-- A machine with blocks of 16 kilobytes and pages of 4 kilobytes, one of which is mapped.
use obliteration.Prelude.{ℕ, ◌≡◌, refl, Bool, true, some, [], ◌∷◌, arith, ok, err, done}
use obliteration.Hv.Ram.{Ram, Blocks, locked, alloc, checked_end, any_in, lock_new, insert_new}
use obliteration.Hv.PageTables.{
  zero_table, Builder, Context, duplicated_virtual_addr, set_page_entry, write_entry, insert_table,
  next_multiple, alloc_page_table, descend, set_page, map_page, map_pages, setup_4k_page_tables,
}
use obliteration.Hv.PageTables.Descend.{Builds}
use obliteration.Hv.PageTables.Ranges.{WalkedRange, setup_4k_page_tables-WalkedRange}
use obliteration.Hv.PageTables.Duplicates.{map_page-duplicated}
use obliteration.Hv.Build.{
  AllocInfo, RamBuilder, checked_next_multiple_of, no_tables, first_context, alloc_ram,
}
use obliteration.Hv.Build.Mappings.{first_context-IsContext}

abbrev grants : ℕ → ℕ → Bool
grants addr len = true

abbrev machine : Ram
machine = record { len = 0x20000; vm_page_size = 0x1000; host_page_size = 0x4000 }

abbrev page : AllocInfo
page = record { paddr = 0; vaddr = 0x70000000; len = 0x1000 }

abbrev given : RamBuilder
given = record {
  builder = record { next = 0x4000; blocks = (0, locked) ∷ [] };
  allocated = page ∷ [];
}

abbrev builder_at : ℕ → Blocks → Builder
builder_at at blocks = record { next = at; blocks = blocks }

gives_page :
    alloc_ram grants grants machine
      (record { builder = builder_at 0 []; allocated = [] })
      (some 0x70000000)
      0x1000
    ≡ done (ok (0, given))
unfolding alloc_ram checked_next_multiple_of alloc checked_end any_in lock_new insert_new
gives_page = refl

abbrev with_root : Blocks
with_root = (0, locked) ∷ (0x4000, locked) ∷ []

abbrev five : Blocks
five = (0, locked) ∷ (0x4000, locked) ∷ (0x8000, locked) ∷ (0xC000, locked) ∷ (0x10000, locked) ∷ []

abbrev tables : Context
tables = record {
  root = 0x4000;
  pml4t = write_entry (insert_table no_tables 0x4000) 0x4000 zero_table 0 0x8003;
  pdpt = write_entry (insert_table no_tables 0x8000) 0x8000 zero_table 1 0xC003;
  pdt = write_entry (insert_table no_tables 0xC000) 0xC000 zero_table 384 0x10003;
  pt = write_entry (insert_table no_tables 0x10000) 0x10000 zero_table 0 3;
}

sets_up :
    setup_4k_page_tables grants grants machine
      (first_context 0x4000)
      (builder_at 0x8000 with_root)
      0x70000000
      0
      0x1000
    ≡ done (ok (tables, builder_at 0x14000 five))
unfolding alloc_page_table next_multiple alloc checked_end any_in lock_new insert_new
    setup_4k_page_tables map_pages map_page descend set_page set_page_entry insert_table write_entry
sets_up = refl

with_root-Builds : Builds machine (builder_at 0x8000 with_root)
with_root-Builds = record {
  size = omega arith;
  memory = omega arith;
  order = (omega arith, refl, (omega arith, refl, tt));
}

mapped :
    WalkedRange grants grants machine 1
      (first_context 0x4000)
      0x70000000
      0
      (tables, builder_at 0x14000 five)
mapped =
    setup_4k_page_tables-WalkedRange grants grants machine (first_context 0x4000)
      (builder_at 0x8000 with_root) 0x70000000 0 0x1000 (tables, builder_at 0x14000 five)
      with_root-Builds (first_context-IsContext grants grants machine 0x4000 0x8000) (omega arith)
      sets_up

map_page-duplicated_example :
    map_page grants grants machine tables (builder_at 0x14000 five) 0x70000000 (done 0x3000)
    ≡ done (err (duplicated_virtual_addr 0x70000000))
map_page-duplicated_example =
    map_page-duplicated grants grants machine tables (builder_at 0x14000 five) 0x70000000 0x3000 0
      mapped.tables (mapped.now 0 (omega arith))
