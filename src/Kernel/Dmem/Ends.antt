-- ===== src/Kernel/Dmem/Ends.antt =====
-- `Dmem::new` ends: none of its loops runs on, whatever the map and the configuration.
use obliteration.Prelude.{
  ℕ, zero, suc, ◌+◌, ◌-◌, ◌/◌, ◌<◌, ◌≡◌, ◌≢◌, Bool, none, some, List, arith, panic, stalled, index,
}
use obliteration.Kernel.Dmem.{
  MemoryInfo, copy_within, store, take_whole, take_middle, take_end, take_start, take_range,
  try_block, reserve_from, reserve_phys,
}
use obliteration.Kernel.Dmem.Configs.{DmemConfig, has_mode}
use obliteration.Kernel.Dmem.Setup.{
  Config, Dmem, dipsw, base_mode, load_mode, reserve_or_panic, mini_app, reserve_rest, rest_rounds,
  seek, place, adjust_pmap, config_of, reserve_game, reserve_apps, reserve_others, adjust_maps, new,
}

store-ends : (xs : List ℕ) (i v : ℕ) → store xs i v ≢ panic stalled
unfolding store
store-ends xs i v = ground arith

copy_within-ends : (xs : List ℕ) (lo hi dest : ℕ) → copy_within xs lo hi dest ≢ panic stalled
unfolding copy_within
copy_within-ends xs lo hi dest = ground arith

index-ends {ℓ} : {A : Type ℓ} (xs : List A) (i : ℕ) → index xs i ≢ panic stalled
index-ends xs i = ground arith

take_whole-ends : (mi : MemoryInfo) (i addr : ℕ) → take_whole mi i addr ≢ panic stalled
unfolding take_whole
take_whole-ends mi i addr = grind (arith, copy_within-ends)

take_middle-ends : (mi : MemoryInfo) (i addr stop : ℕ) → take_middle mi i addr stop ≢ panic stalled
unfolding take_middle
take_middle-ends mi i addr stop = grind (arith, copy_within-ends, store-ends)

take_end-ends :
    (mi : MemoryInfo) (i end addr stop : ℕ) → take_end mi i end addr stop ≢ panic stalled
unfolding take_end
take_end-ends mi i end addr stop = grind (arith, store-ends)

take_start-ends : (mi : MemoryInfo) (i addr stop : ℕ) → take_start mi i addr stop ≢ panic stalled
unfolding take_start
take_start-ends mi i addr stop = grind (arith, store-ends)

take_range-ends :
    (mi : MemoryInfo) (i start end addr stop : ℕ)
    → take_range mi i start end addr stop ≢ panic stalled
unfolding take_range
take_range-ends mi i start end addr stop =
    grind (arith, take_whole-ends, take_middle-ends, take_end-ends, take_start-ends)

try_block-ends : (mi : MemoryInfo) (size align i : ℕ) → try_block mi size align i ≢ panic stalled
unfolding try_block
try_block-ends mi size align i = grind (arith, take_range-ends)

reserve_from-ends :
    (mi : MemoryInfo) (size align i : ℕ) → reserve_from mi size align i ≢ panic stalled
unfolding reserve_from
reserve_from-ends mi size align zero = grind (arith, try_block-ends)
reserve_from-ends mi size align (suc zero) = grind (arith, try_block-ends)
reserve_from-ends mi size align (suc (suc i)) =
    grind (arith, try_block-ends, reserve_from-ends mi size align i)

pub reserve_phys-ends :
    (mi : MemoryInfo) (size align : ℕ) → reserve_phys mi size align ≢ panic stalled
unfolding reserve_phys
reserve_phys-ends mi size align = reserve_from-ends mi size align mi.physmap_last

reserve_or_panic-ends :
    (mi : MemoryInfo) (size align : ℕ) → reserve_or_panic mi size align ≢ panic stalled
unfolding reserve_or_panic
reserve_or_panic-ends mi size align = grind (arith, reserve_phys-ends)

-- With enough rounds the loop over the rest comes to a result.
reserve_rest-ne-none :
    (rounds : ℕ) (mi : MemoryInfo) (unk : ℕ)
    → unk / 0x200000 < rounds
    → reserve_rest rounds mi unk ≢ none
unfolding reserve_rest
reserve_rest-ne-none zero mi unk h = absurd (omega arith)
reserve_rest-ne-none (suc rounds) mi unk h = grind (
  arith,
  λ (m : MemoryInfo) (k : unk / 0x200000 ≡ suc ((unk - 0x200000) / 0x200000)).
      reserve_rest-ne-none rounds m (unk - 0x200000) (omega arith),
)

reserve_rest-ends :
    (rounds : ℕ) (mi : MemoryInfo) (unk : ℕ) → reserve_rest rounds mi unk ≢ some (panic stalled)
unfolding reserve_rest
reserve_rest-ends zero mi unk = ground arith
reserve_rest-ends (suc rounds) mi unk =
    grind (arith, reserve_or_panic-ends, λ (m : MemoryInfo) (u : ℕ). reserve_rest-ends rounds m u)

seek-ends :
    (rounds : ℕ) (mi : MemoryInfo) (start idx : ℕ)
    → mi.physmap_last < idx + rounds
    → seek (suc rounds) mi start idx ≢ panic stalled
unfolding seek
seek-ends zero mi start idx h = ground arith
seek-ends (suc rounds) mi start idx h =
    grind (arith, seek-ends rounds mi start (idx + 2), index-ends)

dipsw-ends : (c : Config) (id : ℕ) → dipsw c id ≢ panic stalled
unfolding dipsw
dipsw-ends c id = ground arith

load_mode-ends : (c : Config) (mi : MemoryInfo) → load_mode c mi ≢ panic stalled
unfolding load_mode base_mode dipsw
load_mode-ends c mi = ground arith

place-ends :
    (mi : MemoryInfo) (start end idx : ℕ) (is_found : Bool)
    → place mi start end idx is_found ≢ panic stalled
unfolding place
place-ends mi start end idx is_found = grind (arith, store-ends, index-ends)

adjust_pmap-ends : (mi : MemoryInfo) (start end : ℕ) → adjust_pmap mi start end ≢ panic stalled
unfolding adjust_pmap
adjust_pmap-ends mi start end =
    grind (arith, index-ends, place-ends, seek-ends mi.physmap_last mi start 2)

config_of-ends : (mode : ℕ) → config_of mode ≢ panic stalled
unfolding config_of
config_of-ends mode = grind (arith, index-ends)

reserve_game-ends : (c : Config) (mi : MemoryInfo) → reserve_game c mi ≢ panic stalled
unfolding reserve_game has_mode
reserve_game-ends c mi = grind (arith, load_mode-ends, config_of-ends, reserve_or_panic-ends)

mini_app-ends :
    (c : Config) (dc : DmemConfig) (game_end : ℕ) → mini_app c dc game_end ≢ panic stalled
unfolding mini_app
mini_app-ends c dc game_end = ground arith

has_mode-ends : (mask mode : ℕ) → has_mode mask mode ≢ panic stalled
unfolding has_mode
has_mode-ends mask mode = ground arith

reserve_apps-ends : (c : Config) (d : Dmem) (mi : MemoryInfo) → reserve_apps c d mi ≢ panic stalled
unfolding reserve_apps
reserve_apps-ends c d mi = grind (arith, has_mode-ends, mini_app-ends, reserve_or_panic-ends)

reserve_others-ends : (d : Dmem) (mi : MemoryInfo) → reserve_others d mi ≢ panic stalled
unfolding reserve_others
reserve_others-ends d mi = grind (
  arith,
  has_mode-ends,
  reserve_or_panic-ends,
  reserve_rest-ends,
  λ (m : MemoryInfo).
      reserve_rest-ne-none (rest_rounds d.config.unk1) m d.config.unk1 (omega arith),
)

adjust_maps-ends : (d : Dmem) (haddr : ℕ) (mi : MemoryInfo) → adjust_maps d haddr mi ≢ panic stalled
unfolding adjust_maps
adjust_maps-ends d haddr mi = grind (arith, adjust_pmap-ends, index-ends)

-- `Dmem::new` ends with a value or a panic of the source, on every memory map and configuration:
-- its loops over the blocks, over the rest of the memory and over the map all finish.
pub new-ends : (c : Config) (mi : MemoryInfo) → new c mi ≢ panic stalled
unfolding new
new-ends c mi = grind (
  arith, reserve_or_panic-ends, reserve_game-ends, reserve_apps-ends, reserve_others-ends,
  adjust_maps-ends,
)
