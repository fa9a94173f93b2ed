-- ===== src/Tests/HvRam.antt =====
-- A machine with four blocks of 16 kilobytes and a host that grants everything.
use obliteration.Prelude.{ℕ, ◌≡◌, refl, Bool, true, [], ◌∷◌, arith, ok, done}
use obliteration.Hv.Ram.{
  Ram, Blocks, locked, unlocked, alloc, checked_end, any_in, insert_new, lock_new, lock_round,
  lock_pass, unlock_range, remove_key, remove_each, first_in, unlocked_run, free_round, lock_waits,
  refused, free_waits,
}
use obliteration.Hv.Ram.Blocks.{Ordered}
use obliteration.Hv.Ram.Removals.{FreeResult, free_round-FreeResult}
use obliteration.Hv.Ram.System.{
  idle, holding, Sys, allocs, Reach, start, onward, initial, set_phase,
}
use obliteration.Hv.Ram.Safety.{Safe}
use obliteration.Hv.Ram.Steps.{Reach-Safe}

abbrev grants : ℕ → ℕ → Bool
grants addr len = true

abbrev small : Ram
small = record { len = 0x10000; vm_page_size = 0x1000; host_page_size = 0x4000 }

abbrev two : Blocks
two = (0x4000, locked) ∷ (0x8000, locked) ∷ []

abbrev mixed : Blocks
mixed = (0, unlocked) ∷ (0x4000, unlocked) ∷ (0x8000, locked) ∷ []

abbrev mixed-Ordered : Ordered 0x4000 0 mixed
mixed-Ordered = (omega arith, refl, (omega arith, refl, (omega arith, refl, tt)))

allocs_two : alloc grants grants small 0x4000 0x8000 [] ≡ done (ok two)
unfolding alloc checked_end any_in lock_new insert_new
allocs_two = refl

-- A byte in the second block is enough to wait for it, with the first one locked.
lock_waits_there :
    lock_round 0x4000 0x4000 0x4000 0x8001 mixed ≡ lock_waits ((0, unlocked) ∷ two) 0x8000
unfolding lock_round lock_pass
lock_waits_there = refl

lock_gives_back :
    lock_round 0x4000 0 0 0xC001 ((0, unlocked) ∷ (0x4000, unlocked) ∷ [])
    ≡ refused ((0, unlocked) ∷ (0x4000, unlocked) ∷ [])
unfolding lock_round lock_pass unlock_range
lock_gives_back = refl

frees_in_front : free_round grants 0x4000 0 0xC000 mixed ≡ free_waits ((0x8000, locked) ∷ []) 0x8000
unfolding free_round first_in unlocked_run remove_each remove_key
frees_in_front = refl

free_round-FreeResult_example :
    FreeResult grants 0x4000 0 0xC000 mixed (free_round grants 0x4000 0 0xC000 mixed)
free_round-FreeResult_example =
    free_round-FreeResult grants 0x4000 0 0xC000 mixed (omega arith) mixed-Ordered

abbrev after_alloc : Sys
after_alloc = record { blocks = two; phase = set_phase (λ t. idle) 7 (holding 0x4000 0x8000) }

reaches : Reach grants grants grants small initial after_alloc
reaches = onward start (allocs 7 0x4000 0x8000 two refl allocs_two refl)

Reach-Safe_example : Safe grants grants grants small (omega arith) after_alloc
Reach-Safe_example = Reach-Safe grants grants grants small (omega arith) reaches
