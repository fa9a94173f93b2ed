-- ===== src/Tests/KernelMemoryMap.antt =====
-- The two ranges of memory that a launcher reports, with a reserved one between them.
use obliteration.Prelude.{
  ℕ, ◌≡◌, refl, List, [], ◌∷◌, replicate, arith, done, panic, Ensures, explicit,
}
use obliteration.Kernel.Dmem.Blocks.{Block, rejoin, flat}
use obliteration.Kernel.MemoryMap.{
  PhysMap, MapType, ram, reserved, end_of_map, range, added, ignored, append_region, widen_previous,
  widen_next, add_region, load_regions, check_physmap, load_physmap,
}
use obliteration.Kernel.MemoryMap.Regions.{Result, add_region-Result}
use obliteration.Kernel.MemoryMap.Loading.{IsPhysmap, load_physmap-IsPhysmap}

abbrev entry : ℕ → ℕ → MapType → PhysMap
entry base len ty = record { base = base; len = len; ty = ty }

abbrev reported : List PhysMap
reported =
    entry 0 0x80000 ram
    ∷ entry 0x80000 0x20000 reserved
    ∷ entry 0x100000 0x7F000000 ram
    ∷ entry 0 0 end_of_map
    ∷ []

abbrev loaded : List ℕ × ℕ
loaded = (0 ∷ 0x80000 ∷ 0x100000 ∷ 0x7F100000 ∷ replicate 56 0, 2)

loads : load_physmap reported ≡ done loaded
unfolding load_physmap load_regions check_physmap add_region widen_next widen_previous append_region
    rejoin flat
loads = refl

-- Without memory at the address 0 the first pair stays empty.
needs_zero : load_physmap (entry 0x100000 0x1000 ram ∷ []) ≡ panic explicit
unfolding load_physmap load_regions check_physmap add_region widen_next widen_previous append_region
    rejoin
needs_zero = refl

abbrev two : List Block
two = range 0 0x1000 ∷ range 0x3000 0x4000 ∷ []

-- The gap closes on the side of the next pair.
joins_next :
    add_region (entry 0x1000 0x2000 ram) [] two
    ≡ done (added (range 0 0x1000 ∷ range 0x1000 0x4000 ∷ []))
unfolding add_region widen_next rejoin
joins_next = refl

overlaps : add_region (entry 0x2000 0x1001 ram) [] two ≡ done (ignored two)
unfolding add_region rejoin
overlaps = refl

load_physmap-IsPhysmap_example : IsPhysmap loaded
load_physmap-IsPhysmap_example = load_physmap-IsPhysmap reported loaded loads

add_region-Result_example :
    Ensures (Result (entry 0x1000 0x2000 ram) two) (add_region (entry 0x1000 0x2000 ram) [] two)
add_region-Result_example =
    add_region-Result (entry 0x1000 0x2000 ram) two (omega arith) (omega arith)
      (omega arith, omega arith, (omega arith, omega arith, tt))
