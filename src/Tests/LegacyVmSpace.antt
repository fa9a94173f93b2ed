-- ===== src/Tests/LegacyVmSpace.antt =====
-- `munmap` on two allocations, of two pages and of four, with a gap of a page between them.
use obliteration.Prelude.{
  ℕ, ◌-◌, ◌%◌, ◌^◌, ◌≡◌, refl, Bool, true, not, ◌&&◌, none, List, [], ◌∷◌, ◌==◌, ltb, leb,
  if◌then◌else◌, arith, ok, err, done,
}
use obliteration.Legacy.VmSpace.{
  Alloc, page_size, align_virtual_page, last_at_most, from_key, before_key, start_from, insert,
  remove, insert_all, remove_all, unmap_first, unmap_head, unmap_whole, unmap_one, unmap_each,
  munmap, unaligned_addr, zero_len,
}
use obliteration.Legacy.VmSpace.Cut.{Apart, cut}
use obliteration.Legacy.VmSpace.Start.{covered}
use obliteration.Legacy.VmSpace.Lookup.{page_at}
use obliteration.Legacy.VmSpace.Refine.{page_end, munmap_refines, munmap_unmaps}

abbrev low : Alloc
low = record { addr = 0x4000; len = 0x8000; prot = 3; name = []; storage = 1 }

abbrev high : Alloc
high = record { addr = 0x10000; len = 0x10000; prot = 1; name = []; storage = 2 }

abbrev both : List Alloc
both = low ∷ high ∷ []

abbrev both-Apart : Apart 0 both
both-Apart = (omega arith, omega arith, (omega arith, omega arith, tt))

abbrev always : ℕ → ℕ → ℕ → Bool
always s a l = true

abbrev high_rest : Alloc
high_rest = record { addr = 0x14000; len = 0xC000; prot = 1; name = []; storage = 2 }

abbrev low_rest : Alloc
low_rest = record { addr = 0x4000; len = 0x4000; prot = 3; name = []; storage = 1 }

-- From the second page of the first over the gap into the first page of the second.
unmaps_over_gap : munmap always both 0x8000 0x8001 ≡ done (ok (low_rest ∷ high_rest ∷ []))
unfolding munmap unmap_each unmap_one unmap_first unmap_head unmap_whole start_from last_at_most
    from_key before_key insert remove insert_all remove_all align_virtual_page
unmaps_over_gap = refl

-- From the gap on, nothing is unmapped.
keeps_behind_gap : munmap always both 0xC000 0x8000 ≡ done (ok both)
unfolding munmap unmap_each start_from last_at_most from_key before_key insert_all remove_all
    align_virtual_page
keeps_behind_gap = refl

munmap_refines_example :
    munmap always both 0x8000 0x8001
    ≡ done (
        if not (0x8000 % page_size == 0)
        then err unaligned_addr
        else if 0x8001 == 0
        then err zero_len
        else ok (if covered both 0x8000 then cut 0x8000 (page_end 0x8000 0x8001) both else both))
munmap_refines_example =
    munmap_refines always (λ s a l. refl) both 0x8000 0x8001 both-Apart (omega arith)

low_covered : covered both 0x8000 ≡ true
unfolding covered
low_covered = refl

munmap_unmaps_example :
    (after : List Alloc) × (munmap always both 0x8000 0x8001 ≡ done (ok after))
    × Apart 0 after
    × ((x : ℕ)
        → page_at after x
          ≡ (if leb 0x8000 x && ltb x (page_end 0x8000 0x8001) then none else page_at both x))
munmap_unmaps_example =
    munmap_unmaps always (λ s a l. refl) both 0x8000 0x8001 both-Apart (omega arith) refl
      (omega arith) low_covered

-- The end of the range wraps around to 0: nothing is unmapped, and the call succeeds.
wraps_to_zero : munmap always both 0x4000 (2 ^ 64 - 0x4000) ≡ done (ok both)
unfolding munmap unmap_each start_from last_at_most from_key before_key insert_all remove_all
    align_virtual_page
wraps_to_zero = refl
