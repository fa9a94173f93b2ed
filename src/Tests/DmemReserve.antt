-- ===== src/Tests/DmemReserve.antt =====
-- `reserve_phys` on a map of three blocks.
use obliteration.Prelude.{◌≡◌, refl, List, [], ◌∷◌, replicate, arith, done, ◌⊎◌}
use obliteration.Kernel.Dmem.{
  MemoryInfo, copy_within, store, take_middle, take_end, take_start, take_range, try_block,
  reserve_from, reserve_phys,
}
use obliteration.Kernel.Dmem.Blocks.{Block, flat, rejoin, search_blocks}
use obliteration.Kernel.Dmem.Refine.{Agrees}
use obliteration.Kernel.Dmem.Search.{IsAlignment}
use obliteration.Kernel.Dmem.Conserve.{NoRoom}
use obliteration.Kernel.Dmem.Reserve.{
  IsMap, Reserved, reserve_phys_refines, reserve_phys_takes, reserve_phys_fails,
}

-- Three blocks, the highest first, and the array that holds them.
abbrev tops : List Block
tops =
    record { start = 0x800000; end = 0x2000000 }
    ∷ record { start = 0x400000; end = 0x600000 }
    ∷ record { start = 0x4000; end = 0x300000 }
    ∷ []

abbrev memory : MemoryInfo
memory = record {
  physmap = 0x4000 ∷ 0x300000 ∷ 0x400000 ∷ 0x600000 ∷ 0x800000 ∷ 0x2000000 ∷ replicate 54 0;
  physmap_last = 4;
  end_page = 0;
  unk = 0;
}

memory-IsMap : IsMap memory tops
unfolding rejoin flat
memory-IsMap = record {
  holds = record { unused = replicate 54 0; array = refl; size = refl; last = refl };
  more = omega arith;
  few = omega arith;
  ends = omega arith;
  order = omega arith;
}

megabytes : IsAlignment 0x200000
megabytes = record { bits = 21; rest = 43; power = refl; fits = refl }

abbrev after : MemoryInfo
after = record {
  physmap = 0x4000 ∷ 0x300000 ∷ 0x400000 ∷ 0x600000 ∷ 0x800000 ∷ 0x1e00000 ∷ replicate 54 0;
  physmap_last = 4;
  end_page = 0;
  unk = 0;
}

reserve_two_megabytes : reserve_phys memory 0x200000 0x200000 ≡ done (0x1e00000, after)
unfolding reserve_phys reserve_from try_block take_range take_end store
reserve_two_megabytes = refl

reserve_phys_refines_example :
    Agrees memory (reserve_phys memory 0x200000 0x200000) (search_blocks 0x200000 0x200000 tops [])
reserve_phys_refines_example =
    reserve_phys_refines memory 0x200000 0x200000 tops megabytes memory-IsMap

reserve_phys_takes_example : Reserved 0x200000 0x200000 (rejoin tops []) 0x1e00000 after
reserve_phys_takes_example =
    reserve_phys_takes memory 0x200000 0x200000 tops 0x1e00000 after megabytes memory-IsMap
      (omega arith) reserve_two_megabytes (omega arith)

-- Three blocks with no room for an aligned 16 megabytes.
abbrev small_tops : List Block
small_tops =
    record { start = 0x8000000; end = 0x8800000 }
    ∷ record { start = 0x5800000; end = 0x6800000 }
    ∷ record { start = 0x1004000; end = 0x1300000 }
    ∷ []

abbrev small : MemoryInfo
small = record {
  physmap = 0x1004000 ∷ 0x1300000 ∷ 0x5800000 ∷ 0x6800000 ∷ 0x8000000 ∷ 0x8800000 ∷ replicate 54 0;
  physmap_last = 4;
  end_page = 0;
  unk = 0;
}

sixteen : IsAlignment 0x1000000
sixteen = record { bits = 24; rest = 40; power = refl; fits = refl }

no_sixteen_megabytes : reserve_phys small 0x1000000 0x1000000 ≡ done (0, small)
unfolding reserve_phys reserve_from try_block
no_sixteen_megabytes = refl

-- Two blocks, the lower of which starts at 0: the highest aligned 16 megabytes in it start there too.
abbrev low_tops : List Block
low_tops =
    record { start = 0x101400000; end = 0x102000000 } ∷ record { start = 0; end = 0x1800000 } ∷ []

abbrev low : MemoryInfo
low = record {
  physmap = 0 ∷ 0x1800000 ∷ 0x101400000 ∷ 0x102000000 ∷ replicate 56 0;
  physmap_last = 2;
  end_page = 0;
  unk = 0;
}

abbrev low_after : MemoryInfo
low_after = record low {
  physmap = 0x1000000 ∷ 0x1800000 ∷ 0x101400000 ∷ 0x102000000 ∷ replicate 56 0;
}

low-IsMap : IsMap low low_tops
unfolding rejoin flat
low-IsMap = record {
  holds = record { unused = replicate 56 0; array = refl; size = refl; last = refl };
  more = omega arith;
  few = omega arith;
  ends = omega arith;
  order = omega arith;
}

takes_from_zero : reserve_phys low 0x1000000 0x1000000 ≡ done (0, low_after)
unfolding reserve_phys reserve_from try_block take_range take_start store
takes_from_zero = refl

reserve_phys_fails_example :
    ((low_after ≡ low) × NoRoom 0x1000000 0x1000000 low_tops)
    ⊎ Reserved 0x1000000 0x1000000 (rejoin low_tops []) 0 low_after
reserve_phys_fails_example =
    reserve_phys_fails low 0x1000000 0x1000000 low_tops low_after sixteen low-IsMap (omega arith)
      takes_from_zero

-- The other three ways to take a range.
takes_the_middle :
    reserve_phys memory 0x400000 0x800000
    ≡ done (
      0x1800000,
      record memory {
        physmap =
            0x4000
            ∷ 0x300000
            ∷ 0x400000
            ∷ 0x600000
            ∷ 0x800000
            ∷ 0x1800000
            ∷ 0x1c00000
            ∷ 0x2000000
            ∷ replicate 52 0;
        physmap_last = 6;
      },
    )
unfolding reserve_phys reserve_from try_block take_range take_middle store copy_within
takes_the_middle = refl
