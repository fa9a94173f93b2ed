-- ===== src/Kernel/VmHeap.antt =====
-- kernel/src/malloc/vm.rs: the table of zones of the kernel's heap, and which zone an allocation is
-- taken from. A zone is its item size and its alignment mask.
pub mod Zones
use obliteration.Prelude.{
  ℕ, zero, suc, ◌+◌, ◌-◌, ◌*◌, ◌/◌, ◌^◌, Bool, true, false, List, [], ◌∷◌, ◌++◌, ltb, leb, ◌==◌,
  if◌then◌else◌, bit_and, Flow, done, panic, index, out_of_bounds, unfinished,
}

pub record Zone : Type 0 where
  pub size : ℕ
  pub align_mask : ℕ

-- `PAGE_SIZE`.
abbrev pub page_bytes : ℕ
page_bytes = 0x4000

-- `VmHeap::KMEM_ZSHIFT`, `KMEM_ZBASE` and `KMEM_ZMASK`.
abbrev pub kmem_zshift : ℕ
kmem_zshift = 4

abbrev pub kmem_zbase : ℕ
kmem_zbase = 16

abbrev pub kmem_zmask : ℕ
kmem_zmask = 15

-- The inner loop: the zone is pushed while `last <= size`. The second result is `last` behind it.
unfoldable pub push_zone : ℕ → Zone → ℕ → List Zone × ℕ
push_zone zero zone last = ([], last)
push_zone (suc rounds) zone last = elim (leb last zone.size) [
  | false ↦ ([], last)
  | true ↦ let more = push_zone rounds zone (last + kmem_zbase) in (zone ∷ more.0, more.1)
]

-- The outer loop, from the size `2 ^ i` on. A zone is pushed at most once for each of its 16 bytes
-- and once more.
unfoldable pub push_zones : ℕ → ℕ → ℕ → ℕ → List Zone
push_zones zero mask i last = []
push_zones (suc rounds) mask i last = elim (ltb page_bytes (2 ^ i)) [
  | true ↦ []
  | false ↦
      let pushed =
        push_zone (2 ^ i / kmem_zbase + 1) (record { size = 2 ^ i; align_mask = mask }) last in
      pushed.0 ++ push_zones rounds mask (i + 1) pushed.1
]

-- The zones of one alignment `2 ^ shift`. The loop ends behind the size `2 ^ 14`, in its twelfth round.
unfoldable pub zones_of : ℕ → List Zone
zones_of shift = push_zones 12 (2 ^ shift - 1) kmem_zshift 0

-- The size that the table is indexed by.
unfoldable pub round_size : ℕ → ℕ
round_size size =
    if bit_and size kmem_zmask == 0 then size else bit_and (size + kmem_zbase) (2 ^ 64 - kmem_zbase)

-- The zone that `alloc` takes from, for an alignment of `2 ^ shift`; larger sizes are not implemented.
unfoldable pub zone_for : ℕ → ℕ → Flow Zone
zone_for shift size =
    if leb size page_bytes
    then if ltb shift 63
      then index (zones_of shift) (round_size size / 2 ^ kmem_zshift)
      else panic out_of_bounds
    else panic unfinished
