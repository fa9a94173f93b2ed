-- ===== src/Tests/LegacyVmUpdate.antt =====
-- `mprotect` and `mname` on two allocations, of two pages and of four, with a gap of a page between them.
use obliteration.Prelude.{ℕ, ◌≡◌, refl, Bool, true, List, [], ◌∷◌, arith, ok, err, done}
use obliteration.Legacy.VmSpace.{
  Alloc, align_virtual_page, last_at_most, from_key, before_key, start_from, insert,
}
use obliteration.Legacy.VmSpace.Cut.{Apart}
use obliteration.Legacy.VmSpace.Refine.{page_end}
use obliteration.Legacy.VmSpace.Update.{
  zero_len, invalid_addr, unmapped_addr, assert_all, select, update_first, update_head,
  update_whole, update_one, update_each, update, mprotect, same_name, mname,
}
use obliteration.Legacy.VmSpace.Update.Outcome.{Outcome, with_prot, mprotect-Outcome}

abbrev piece : ℕ → ℕ → ℕ → List ℕ → Alloc
piece addr len prot name = record { addr = addr; len = len; prot = prot; name = name; storage = 1 }

abbrev both : List Alloc
both = piece 0x4000 0x8000 3 [] ∷ piece 0x10000 0x10000 1 [] ∷ []

abbrev both-Apart : Apart 0 both
both-Apart = (omega arith, omega arith, (omega arith, omega arith, tt))

abbrev always : ℕ → ℕ → ℕ → ℕ → Bool
always s a l p = true

-- Two pages in the middle of the second become an allocation of their own.
protects_middle :
    mprotect always both 0x14000 0x8000 5
    ≡ done (
        ok (
          piece 0x4000 0x8000 3 []
          ∷ piece 0x10000 0x4000 1 []
          ∷ piece 0x14000 0x8000 5 []
          ∷ piece 0x1C000 0x4000 1 []
          ∷ []))
unfolding mprotect update select update_each update_one update_first update_head update_whole
    start_from last_at_most from_key before_key insert assert_all align_virtual_page
protects_middle = refl

-- The end of the range may lie behind the last allocation.
protects_to_the_end :
    mprotect always both 0x14000 0x80000 5
    ≡ done
        (ok (piece 0x4000 0x8000 3 [] ∷ piece 0x10000 0x4000 1 [] ∷ piece 0x14000 0xC000 5 [] ∷ []))
unfolding mprotect update select update_each update_one update_first update_head update_whole
    start_from last_at_most from_key before_key insert assert_all align_virtual_page
protects_to_the_end = refl

meets_gap : mprotect always both 0x8000 0x10000 5 ≡ done (err (unmapped_addr 0xC000))
unfolding mprotect update select start_from last_at_most from_key before_key align_virtual_page
meets_gap = refl

starts_in_gap : mprotect always both 0xC000 0x8000 5 ≡ done (err invalid_addr)
unfolding mprotect update select start_from last_at_most align_virtual_page
starts_in_gap = refl

names_whole :
    mname both 0x4000 0x8000 (7 ∷ [])
    ≡ done (ok (piece 0x4000 0x8000 3 (7 ∷ []) ∷ piece 0x10000 0x10000 1 [] ∷ []))
unfolding mname update select update_each update_one update_first update_head update_whole
    start_from last_at_most from_key before_key insert assert_all align_virtual_page same_name
names_whole = refl

refuses_empty : mname both 0x4000 0 (7 ∷ []) ≡ done (err zero_len)
unfolding mname update
refuses_empty = refl

mprotect-Outcome_example :
    Outcome both 0x14000
      (page_end 0x14000 0x8000)
      (with_prot 5)
      (mprotect always both 0x14000 0x8000 5)
mprotect-Outcome_example =
    mprotect-Outcome always both 0x14000 0x8000 5 (λ s a l p. refl) both-Apart refl (omega arith)
      (omega arith)
