-- ===== src/Hv/Ram.antt =====
-- lib/hv/src/ram/mod.rs and lib/hv/src/ram/lock.rs: which blocks of the machine's memory are
-- allocated, and which of those are locked. The map from addresses to states is an association list
-- in ascending order. A call that waits on the condition variable is cut there: a round is what it
-- does from taking the mutex up to the wait or its end.
pub mod Blocks
pub mod Inserts
pub mod Allocs
pub mod Passes
pub mod Locking
pub mod Frees
pub mod Removals
pub mod System
pub mod Safety
pub mod Steps
use obliteration.Prelude.{
  ℕ, zero, suc, ◌+◌, ◌-◌, ◌/◌, ◌%◌, ◌^◌, max, Bool, true, false, not, ◌&&◌, Option, none, some,
  List, [], ◌∷◌, ◌==◌, ltb, leb, if◌then◌else◌, Result, ok, err, Flow, done, panic, ◌>>=◌, ◌>>◌,
  assert, checked_add, assertion,
}

pub data BlockState : Type 0 where
  locked unlocked : BlockState

abbrev pub Blocks : Type 0
Blocks = List (ℕ × BlockState)

-- The fields of `Ram` that do not change, but for the host's address.
pub record Ram : Type 0 where
  pub len : ℕ
  pub vm_page_size : ℕ
  pub host_page_size : ℕ

abbrev pub block_size : Ram → ℕ
block_size r = max r.vm_page_size r.host_page_size

pub data RamError : Type 0 where
  invalid_addr already_allocated commit_failed map_failed decommit_failed : RamError

-- Whether `range(lo..hi)` has the key.
abbrev pub in_range : ℕ → ℕ → ℕ → Bool
in_range lo hi key = leb lo key && ltb key hi

-- `range(lo..hi).next().is_some()`.
unfoldable pub any_in : ℕ → ℕ → Blocks → Bool
any_in lo hi [] = false
any_in lo hi (b ∷ blocks) = if in_range lo hi b.0 then true else any_in lo hi blocks

-- `insert` with the assertion that the key was not there.
unfoldable pub insert_new : ℕ → BlockState → Blocks → Flow Blocks
insert_new key s [] = done ((key, s) ∷ [])
insert_new key s (b ∷ blocks) = elim (ltb key b.0) [
  | true ↦ done ((key, s) ∷ b ∷ blocks)
  | false ↦ elim (key == b.0) [
    | true ↦ panic assertion
    | false ↦ insert_new key s blocks >>= λ rest. done (b ∷ rest)
  ]
]

unfoldable pub remove_key : ℕ → Blocks → Blocks
remove_key key [] = []
remove_key key (b ∷ blocks) = elim (key == b.0) [
  | true ↦ blocks
  | false ↦ b ∷ remove_key key blocks
]

-- How many values `(lo..hi).step_by(step)` has.
abbrev pub steps : ℕ → ℕ → ℕ → ℕ
steps lo hi step = (hi - lo + (step - 1)) / step

-- The loop of `alloc` over the blocks of the range.
unfoldable pub lock_new : ℕ → ℕ → ℕ → Blocks → Flow Blocks
lock_new zero step addr blocks = done blocks
lock_new (suc n) step addr blocks =
    insert_new addr locked blocks >>= λ rest. lock_new n step (addr + step) rest

-- The loop of `dealloc` over the blocks it has decommitted.
unfoldable pub remove_each : ℕ → ℕ → ℕ → Blocks → Blocks
remove_each zero step addr blocks = blocks
remove_each (suc n) step addr blocks = remove_each n step (addr + step) (remove_key addr blocks)

-- `for (_, s) in range_mut(lo..hi) { *s = State::Unlocked }`.
unfoldable pub unlock_range : ℕ → ℕ → Blocks → Blocks
unlock_range lo hi [] = []
unlock_range lo hi (b ∷ blocks) =
    (b.0, if in_range lo hi b.0 then unlocked else b.1) ∷ unlock_range lo hi blocks

-- How the `for` loop of `lock` ends: at a block that is not the next one, at one that is locked, or
-- behind the last.
pub data Stop : Type 0 where
  hole busy swept : Stop

pub record Pass : Type 0 where
  pub blocks : Blocks
  pub next : ℕ
  pub stop : Stop

abbrev pub behind : ℕ × BlockState → Pass → Pass
behind b p = record p { blocks = b ∷ p.blocks }

-- The `for` loop over `range_mut(start..end)`.
unfoldable pub lock_pass : ℕ → ℕ → ℕ → ℕ → Blocks → Pass
lock_pass start end step next [] = record { blocks = []; next = next; stop = swept }
lock_pass start end step next (b ∷ rest) = elim (in_range start end b.0) [
  | false ↦ behind b (lock_pass start end step next rest)
  | true ↦ elim (b.0 == next) [
    | false ↦ record { blocks = b ∷ rest; next = next; stop = hole }
    | true ↦ elim (b.1) [
      | locked ↦ record { blocks = b ∷ rest; next = next; stop = busy }
      | unlocked ↦ behind (b.0, locked) (lock_pass start end step (next + step) rest)
    ]
  ]
]

-- A round of `lock`: it waits with the blocks up to an address locked, or it has them all, or it gives
-- back what it has locked.
pub data LockRound : Type 0 where
  lock_waits : Blocks → ℕ → LockRound
  taken : Blocks → LockRound
  refused : Blocks → LockRound

unfoldable pub lock_round : ℕ → ℕ → ℕ → ℕ → Blocks → LockRound
lock_round step begin next end blocks =
    let p = lock_pass next end step next blocks in
    elim p.stop [
      | busy ↦ lock_waits p.blocks p.next
      | hole ↦ refused (unlock_range begin p.next p.blocks)
      | swept ↦
          if ltb p.next end then refused (unlock_range begin p.next p.blocks) else taken p.blocks
    ]

-- The start of `lock`: the address is rounded down to a block. `none`: the end overflows.
unfoldable pub lock_bounds : Ram → ℕ → ℕ → Option (ℕ × ℕ)
lock_bounds r addr len = elim (checked_add addr len) [
  | none ↦ none
  | some end ↦ some (addr - addr % block_size r, end)
]

-- `LockedMem::drop` for the memory from `addr` on.
unfoldable pub drop_lock : Ram → ℕ → ℕ → Blocks → Blocks
drop_lock r addr len blocks = unlock_range (addr - addr % block_size r) (addr + len) blocks

-- The unlocked blocks from the first one of `range(addr..end)` up to one that is locked: the start of
-- the last of them, and whether a locked one has ended them.
unfoldable pub unlocked_run : ℕ → ℕ → ℕ → Blocks → ℕ × Bool
unlocked_run addr end last [] = (last, false)
unlocked_run addr end last (b ∷ rest) = elim (in_range addr end b.0) [
  | false ↦ unlocked_run addr end last rest
  | true ↦ elim (b.1) [ locked ↦ (last, true) | unlocked ↦ unlocked_run addr end b.0 rest ]
]

-- The first entry of `range(addr..end)`, and the entries behind it.
unfoldable pub first_in : ℕ → ℕ → Blocks → Option (ℕ × BlockState × Blocks)
first_in addr end [] = none
first_in addr end (b ∷ rest) = elim (in_range addr end b.0) [
  | true ↦ some (b.0, b.1, rest)
  | false ↦ first_in addr end rest
]

-- A round of `dealloc`.
pub data FreeRound : Type 0 where
  free_waits : Blocks → ℕ → FreeRound
  freed : Blocks → FreeRound
  free_failed : FreeRound

-- `decommit addr len` says whether the host takes the memory back.
module _ (decommit : ℕ → ℕ → Bool) where
  unfoldable pub free_round : ℕ → ℕ → ℕ → Blocks → FreeRound
  free_round step addr end blocks = elim (first_in addr end blocks) [
    | none ↦ freed blocks
    | some f ↦ elim f.1 [
      | locked ↦ free_waits blocks addr
      | unlocked ↦
          let run = unlocked_run addr end f.0 f.2 in
          let stop = run.0 + step in
          if decommit f.0 (stop - f.0)
          then (let left = remove_each (steps f.0 stop step) step f.0 blocks in
              if run.1 then free_waits left stop else freed left)
          else free_failed
    ]
  ]

-- The checks in front of `alloc` and `dealloc`: the end of the range.
unfoldable pub checked_end : Ram → ℕ → ℕ → Flow (Option ℕ)
checked_end r addr len = do
  assert (addr % block_size r == 0)
  assert (len % block_size r == 0)
  elim (checked_add addr len) [
    | none ↦ done none
    | some end ↦ done (if ltb r.len end then none else some end)
  ]

-- `commit addr len` and `map addr len` say whether the host gives the memory and the machine takes it.
module _ (commit map : ℕ → ℕ → Bool) where
  unfoldable pub alloc : Ram → ℕ → ℕ → Blocks → Flow (Result Blocks RamError)
  alloc r addr len blocks = do
    valid ← checked_end r addr len
    elim valid [
      | none ↦ done (err invalid_addr)
      | some end ↦
          if any_in addr end blocks
          then done (err already_allocated)
          else if not (commit addr len)
          then done (err commit_failed)
          else if not (map addr len)
          then done (err map_failed)
          else lock_new (steps addr end (block_size r)) (block_size r) addr blocks
            >>= (λ left. done (ok left))
    ]
