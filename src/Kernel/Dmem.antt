-- ===== src/Kernel/Dmem.antt =====
-- kernel/src/dmem/mod.rs and the memory map of kernel/src/main.rs: the array `physmap` of start
-- and end addresses, from which `reserve_phys` takes aligned ranges, the highest block first.
pub mod Blocks
pub mod Arrays
pub mod Refine
pub mod Ends
pub mod Modes
pub mod Configs
pub mod Setup
pub mod Reserve
pub mod Conserve
pub mod Search
use obliteration.Prelude.{
  ℕ, zero, suc, ◌+◌, ◌-◌, ◌*◌, ◌^◌, ◌≡◌, Bool, true, false, not, ◌&&◌, ◌||◌, Option, none, some,
  List, [], ◌∷◌, ◌++◌, ltb, leb, ◌==◌, if◌then◌else◌, length, set, take, drop, bit_and, Flow, done,
  panic, ◌>>=◌, ◌>>◌, assert, index, add64, sub64, out_of_bounds,
}

-- The fields of `MemoryInfo` that the direct memory system reads or writes.
pub record MemoryInfo : Type 0 where
  pub physmap : List ℕ
  pub physmap_last : ℕ
  pub end_page : ℕ
  pub unk : ℕ

-- `xs.copy_within(lo..hi, dest)`, which panics where a range does not fit the slice.
unfoldable pub copy_within : List ℕ → ℕ → ℕ → ℕ → Flow (List ℕ)
copy_within xs lo hi dest =
    if leb lo hi && leb hi (length xs) && leb (dest + (hi - lo)) (length xs)
    then done (take dest xs ++ (take (hi - lo) (drop lo xs) ++ drop (dest + (hi - lo)) xs))
    else panic out_of_bounds

-- `physmap[i] = v`.
unfoldable pub store : List ℕ → ℕ → ℕ → Flow (List ℕ)
store xs i v = if ltb i (length xs) then done (set xs i v) else panic out_of_bounds

-- `(-align) as u64` for a positive alignment.
abbrev pub negated : ℕ → ℕ
negated align = 2 ^ 64 - align

-- The range is the whole block.
unfoldable pub take_whole : MemoryInfo → ℕ → ℕ → Flow (ℕ × MemoryInfo)
take_whole mi i addr = do
  pm ← copy_within mi.physmap (i + 2) (length mi.physmap) i
  last ← sub64 mi.physmap_last 2
  done (addr, record mi { physmap = pm; physmap_last = last })

-- The range leaves a hole in the block.
unfoldable pub take_middle : MemoryInfo → ℕ → ℕ → ℕ → Flow (ℕ × MemoryInfo)
take_middle mi i addr aligned_end = do
  moved ← copy_within mi.physmap i (mi.physmap_last + 2) (i + 2)
  low ← store moved (i + 1) addr
  pm ← store low (i + 2) aligned_end
  done (addr, record mi { physmap = pm; physmap_last = mi.physmap_last + 2 })

-- The range is the end of the block.
unfoldable pub take_end : MemoryInfo → ℕ → ℕ → ℕ → ℕ → Flow (ℕ × MemoryInfo)
take_end mi i end addr aligned_end = do
  assert (aligned_end == end)
  pm ← store mi.physmap (i + 1) addr
  done (addr, record mi { physmap = pm })

-- The range is the start of the block.
unfoldable pub take_start : MemoryInfo → ℕ → ℕ → ℕ → Flow (ℕ × MemoryInfo)
take_start mi i addr aligned_end = do
  pm ← store mi.physmap i aligned_end
  done (addr, record mi { physmap = pm })

-- What the loop does with block `i` once the range from `addr` is known to fit.
unfoldable pub take_range : MemoryInfo → ℕ → ℕ → ℕ → ℕ → ℕ → Flow (ℕ × MemoryInfo)
take_range mi i start end addr aligned_end =
    if (addr == start) && (aligned_end == end)
    then take_whole mi i addr
    else if not (addr == start) && not (aligned_end == end)
    then take_middle mi i addr aligned_end
    else if not (addr == start)
    then take_end mi i end addr aligned_end
    else take_start mi i addr aligned_end

-- One round of the loop: `none` where the range does not fit into block `i`.
unfoldable pub try_block : MemoryInfo → ℕ → ℕ → ℕ → Flow (Option (ℕ × MemoryInfo))
try_block mi size align i = do
  start ← index mi.physmap i
  end ← index mi.physmap (i + 1)
  room ← sub64 end size
  let addr = bit_and room (negated align)
  if leb start addr
      then (do
        aligned_end ← add64 addr size
        r ← take_range mi i start end addr aligned_end
        done (some r))
      else done none

-- The loop from block `i` down: `i -= 2` until `i < 2`.
unfoldable pub reserve_from : MemoryInfo → ℕ → ℕ → ℕ → Flow (ℕ × MemoryInfo)
reserve_from mi size align zero = do
  r ← try_block mi size align 0
  elim r [ some hit ↦ done hit | none ↦ done (0, mi) ]
reserve_from mi size align (suc zero) = do
  r ← try_block mi size align 1
  elim r [ some hit ↦ done hit | none ↦ done (0, mi) ]
reserve_from mi size align (suc (suc i)) = do
  r ← try_block mi size align (suc (suc i))
  elim r [ some hit ↦ done hit | none ↦ reserve_from mi size align i ]

unfoldable pub reserve_phys : MemoryInfo → ℕ → ℕ → Flow (ℕ × MemoryInfo)
reserve_phys mi size align = reserve_from mi size align mi.physmap_last
