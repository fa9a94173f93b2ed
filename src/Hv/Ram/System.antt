-- ===== src/Hv/Ram/System.antt =====
-- The threads that share a `Ram`. A step is what one thread does while it has the mutex, so the steps
-- of different threads may come in any order; a thread that waits takes its next round whenever the
-- condition variable lets it.
use obliteration.Prelude.{
  ℕ, ◌+◌, ◌-◌, ◌%◌, ◌≡◌, Bool, false, ◌==◌, if◌then◌else◌, some, [], ok, done,
}
use obliteration.Hv.Ram.{
  Blocks, in_range, Ram, block_size, lock_waits, taken, refused, lock_round, lock_bounds, drop_lock,
  free_waits, freed, free_failed, free_round, checked_end, alloc,
}

-- What a thread is doing: nothing, a `lock` of a range that has come up to `next`, holding a
-- `LockedMem`, or a `dealloc` of the range from `addr` to `end`.
pub data Phase : Type 0 where
  idle : Phase
  locking : (addr len next : ℕ) → Phase
  holding : (addr len : ℕ) → Phase
  freeing : (addr end : ℕ) → Phase

pub record Sys : Type 0 where
  pub blocks : Blocks
  pub phase : ℕ → Phase

abbrev pub set_phase : (ℕ → Phase) → ℕ → Phase → ℕ → Phase
set_phase phase t p u = if u == t then p else phase u

-- Nothing is allocated, and no thread has called.
abbrev pub initial : Sys
initial = record { blocks = []; phase = λ t. idle }

module _ (commit map decommit : ℕ → ℕ → Bool) (r : Ram) where
  abbrev pub start_of : ℕ → ℕ
  start_of addr = addr - addr % block_size r

  pub data Step (s s' : Sys) : Type 0 where
    allocs :
        (t addr len : ℕ) (after : Blocks)
        → s.phase t ≡ idle
        → alloc commit map r addr len s.blocks ≡ done (ok after)
        → s' ≡ record { blocks = after; phase = set_phase s.phase t (holding addr len) }
        → Step s s'
    lock_starts :
        (t addr len begin end : ℕ)
        → s.phase t ≡ idle
        → lock_bounds r addr len ≡ some (begin, end)
        → s' ≡ record s { phase = set_phase s.phase t (locking addr len begin) }
        → Step s s'
    lock_pauses :
        (t addr len next next' : ℕ) (after : Blocks)
        → s.phase t ≡ locking addr len next
        → lock_round (block_size r) (start_of addr) next (addr + len) s.blocks
          ≡ lock_waits after next'
        → s' ≡ record { blocks = after; phase = set_phase s.phase t (locking addr len next') }
        → Step s s'
    lock_succeeds :
        (t addr len next : ℕ) (after : Blocks)
        → s.phase t ≡ locking addr len next
        → lock_round (block_size r) (start_of addr) next (addr + len) s.blocks ≡ taken after
        → s' ≡ record { blocks = after; phase = set_phase s.phase t (holding addr len) }
        → Step s s'
    lock_fails :
        (t addr len next : ℕ) (after : Blocks)
        → s.phase t ≡ locking addr len next
        → lock_round (block_size r) (start_of addr) next (addr + len) s.blocks ≡ refused after
        → s' ≡ record { blocks = after; phase = set_phase s.phase t idle }
        → Step s s'
    drops :
        (t addr len : ℕ)
        → s.phase t ≡ holding addr len
        → s' ≡ record { blocks = drop_lock r addr len s.blocks; phase = set_phase s.phase t idle }
        → Step s s'
    free_starts :
        (t addr len end : ℕ)
        → s.phase t ≡ idle
        → checked_end r addr len ≡ done (some end)
        → s' ≡ record s { phase = set_phase s.phase t (freeing addr end) }
        → Step s s'
    free_pauses :
        (t addr end next : ℕ) (after : Blocks)
        → s.phase t ≡ freeing addr end
        → free_round decommit (block_size r) addr end s.blocks ≡ free_waits after next
        → s' ≡ record { blocks = after; phase = set_phase s.phase t (freeing next end) }
        → Step s s'
    free_ends :
        (t addr end : ℕ) (after : Blocks)
        → s.phase t ≡ freeing addr end
        → free_round decommit (block_size r) addr end s.blocks ≡ freed after
        → s' ≡ record { blocks = after; phase = set_phase s.phase t idle }
        → Step s s'
    free_breaks :
        (t addr end : ℕ)
        → s.phase t ≡ freeing addr end
        → free_round decommit (block_size r) addr end s.blocks ≡ free_failed
        → s' ≡ record s { phase = set_phase s.phase t idle }
        → Step s s'

  pub data Reach (s : Sys) : Sys → Type 0 where
    start : Reach s s
    onward : {u v : Sys} → Reach s u → Step u v → Reach s v

  -- Whether a thread in that phase has locked the block.
  abbrev pub holds : Phase → ℕ → Bool
  holds idle x = false
  holds (locking addr len next) x = in_range (start_of addr) next x
  holds (holding addr len) x = in_range (start_of addr) (addr + len) x
  holds (freeing addr end) x = false
