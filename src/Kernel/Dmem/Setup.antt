-- ===== src/Kernel/Dmem/Setup.antt =====
-- `Dmem::new` of kernel/src/dmem/mod.rs with its helpers `load_mode` and `adjust_pmap`, and
-- `Config::dipsw` of kernel/src/config/mod.rs.
use obliteration.Prelude.{
  ℕ, zero, suc, ◌+◌, ◌-◌, ◌*◌, ◌/◌, ◌^◌, Bool, true, false, not, ◌&&◌, Option, none, some, ltb, leb,
  ◌==◌, if◌then◌else◌, bit_and, bit_or, Flow, done, panic, ◌>>=◌, ◌>>◌, index, add64, sub64,
  unwrap_none, explicit, unfinished, stalled,
}
use obliteration.Kernel.Dmem.{MemoryInfo, negated, store, reserve_phys}
use obliteration.Kernel.Dmem.Configs.{
  DmemConfig, dmem_configs, has_mode, unconfigured, with_mini, with_vsh, without_rest,
}

-- What `load_mode` asks of the configuration: `unknown_dmem1`, and which kit the console ID names.
pub record Config : Type 0 where
  pub unknown_dmem1 : ℕ
  pub is_testkit : Bool
  pub is_devkit : Bool

-- No switch is on for a retail console; the switches of the kits are not implemented.
unfoldable pub dipsw : Config → ℕ → Flow Bool
dipsw c id =
    if not c.is_testkit
    then if not c.is_devkit then done false else panic unfinished
    else panic unfinished

-- `a && b` where `b` may panic, and is run only if `a` holds.
abbrev pub and_then : Flow Bool → Flow Bool → Flow Bool
and_then a b = a >>= λ x. if x then b else done false

-- The number that `load_mode` starts from, with the switches tested in the source's order.
unfoldable pub base_mode : Config → MemoryInfo → Flow ℕ
base_mode c mi =
    if c.unknown_dmem1 == 0
    then (do
      unk97 ← dipsw c 97
      if unk97 then done 3 else (do
        plain ← and_then (dipsw c 0) (dipsw c 24 >>= λ x. done (not x))
        if plain
            then (do
              both ← and_then (dipsw c 16) (and_then (dipsw c 17) (done (bit_and mi.unk 3 == 3)))
              if both then done 6 else panic unfinished)
            else done 4))
    else done 5

unfoldable pub load_mode : Config → MemoryInfo → Flow ℕ
load_mode c mi = do v ← base_mode c mi; done (v + mi.unk * 8)

-- A reservation that must not fail.
unfoldable pub reserve_or_panic : MemoryInfo → ℕ → ℕ → Flow (ℕ × MemoryInfo)
reserve_or_panic mi size align = do
  r ← reserve_phys mi size align
  if r.0 == 0 then panic explicit else done r

-- The mini-app memory: where it would lie, for the modes that share it.
unfoldable pub mini_app : Config → DmemConfig → ℕ → Flow ℕ
mini_app c dc game_end =
    let align = if c.unknown_dmem1 == 0 then 0x8000000 else 0x200000 in
    if dc.mini_shared
    then (do
      used ← add64 dc.fmem_max dc.mini_size
      room ← sub64 game_end used
      let mini = bit_and (negated align) room
      if mini == 0 then panic explicit else done mini)
    else panic unfinished

-- The loop that reserves the last `unk` bytes, two megabytes at a time. `none`: the rounds ran out.
unfoldable pub reserve_rest : ℕ → MemoryInfo → ℕ → Option (Flow MemoryInfo)
reserve_rest zero mi unk = none
reserve_rest (suc rounds) mi unk =
    let size = if ltb unk 0x200000 then unk else 0x200000 in
    let align = if ltb unk 0x200000 then 0x4000 else 0x200000 in
    elim (size == 0) [
      | true ↦ some (panic unwrap_none)
      | false ↦ elim (reserve_or_panic mi size align) [
        | panic e ↦ some (panic e)
        | done r ↦ elim (unk - size == 0) [
          | true ↦ some (done r.1)
          | false ↦ reserve_rest rounds r.1 (unk - size)
        ]
      ]
    ]

-- Rounds enough for `unk` bytes.
abbrev pub rest_rounds : ℕ → ℕ
rest_rounds unk = unk / 0x200000 + 1

-- The search of `adjust_pmap` for the first block at `start` or above, from entry `idx` up: the
-- entry and whether there is one.
unfoldable pub seek : ℕ → MemoryInfo → ℕ → ℕ → Flow (ℕ × Bool)
seek zero mi start idx = panic stalled
seek (suc rounds) mi start idx = elim (ltb mi.physmap_last idx) [
  | true ↦ done (idx, false)
  | false ↦ elim (index mi.physmap idx) [
    | panic e ↦ panic e
    | done at ↦ elim (leb start at) [
      | true ↦ done (idx, true)
      | false ↦ seek rounds mi start (idx + 2)
    ]
  ]
]

-- What `adjust_pmap` does at entry `idx`, behind the first block.
unfoldable pub place : MemoryInfo → ℕ → ℕ → ℕ → Bool → Flow MemoryInfo
place mi start end idx is_found = do
  at ← (if is_found then index mi.physmap idx else done 0)
  before ← index mi.physmap (idx - 1)
  let empty = is_found && (at == end)
  if is_found && (before == start) && (at == end)
      then panic unfinished
      else if before == start
      then panic unfinished
      else if not empty
      then if not is_found
        then (do
          low ← store mi.physmap idx start
          pm ← store low (bit_or idx 1) end
          done (record mi { physmap = pm; physmap_last = mi.physmap_last + 2 }))
        else panic unfinished
      else store mi.physmap idx start >>= (λ pm. done (record mi { physmap = pm }))

unfoldable pub adjust_pmap : MemoryInfo → ℕ → ℕ → Flow MemoryInfo
adjust_pmap mi start end = do
  first ← index mi.physmap 0
  if ltb first start
      then seek (mi.physmap_last + 1) mi start 2 >>= (λ r. place mi start end r.0 r.1)
      else panic unfinished

-- The fields of `Dmem`.
pub record Dmem : Type 0 where
  pub mode : ℕ
  pub config : DmemConfig
  pub game_end : ℕ

-- `DMEM_CONFIGS[mode].as_ref().unwrap()`.
unfoldable pub config_of : ℕ → Flow DmemConfig
config_of mode = do
  entry ← index dmem_configs mode
  elim entry [ none ↦ panic unwrap_none | some dc ↦ done dc ]

-- From the choice of the mode up to the reservation of the game's memory: the address too.
unfoldable pub reserve_game : Config → MemoryInfo → Flow (Dmem × ℕ × MemoryInfo)
reserve_game c mi = do
  mode ← load_mode c mi
  bad ← has_mode unconfigured mode
  if bad then panic explicit else (do
    dc ← config_of mode
    r ← reserve_or_panic mi dc.game_size 0x8000000
    game_end ← add64 r.0 dc.game_size
    done (record { mode = mode; config = dc; game_end = game_end }, r.0, r.1))

-- From the mini-app's memory up to the shell's.
unfoldable pub reserve_apps : Config → Dmem → MemoryInfo → Flow MemoryInfo
reserve_apps c d mi = do
  mini ← has_mode with_mini d.mode
  (if mini then mini_app c d.config d.game_end else done 0) >>= λ _. (do
    vsh ← has_mode with_vsh d.mode
    if vsh then reserve_or_panic mi d.config.vsh_size 0x200000 >>= (λ r. done r.1) else done mi)

-- The two sets of modes that are not implemented, then the memory of `vision` and the rest.
unfoldable pub reserve_others : Dmem → MemoryInfo → Flow MemoryInfo
reserve_others d mi = do
  first ← has_mode 0x47000703 d.mode
  (if first then panic unfinished else done tt)
  second ← has_mode 0x47010703 d.mode
  (if second then panic unfinished else done tt)
  vision ← reserve_or_panic mi 0x1000000 0x200000
  skip ← has_mode without_rest d.mode
  if skip
      then done vision.1
      else elim (reserve_rest (rest_rounds d.config.unk1) vision.1 d.config.unk1) [
        | none ↦ panic stalled
        | some r ↦ r
      ]

-- The entries that the memory of the game and of the message buffer add to the map.
unfoldable pub adjust_maps : Dmem → ℕ → MemoryInfo → Flow MemoryInfo
adjust_maps d haddr mi = do
  flexible ← sub64 d.game_end d.config.fmem_max
  mi' ← adjust_pmap mi flexible d.game_end
  stop ← add64 haddr (0xC00000 + (if mi'.unk == 0 then 0 else 0x400000))
  mi'' ← adjust_pmap mi' haddr stop
  last ← index mi''.physmap (mi''.physmap_last + 1)
  done (record mi'' { end_page = last / 2 ^ 14 })

unfoldable pub new : Config → MemoryInfo → Flow (Dmem × MemoryInfo)
new c mi = do
  high ← reserve_or_panic mi 0x1000000 1
  game ← reserve_game c high.1
  apps ← reserve_apps c game.0 game.2
  others ← reserve_others game.0 apps
  mi' ← adjust_maps game.0 high.0 others
  done (game.0, mi')
