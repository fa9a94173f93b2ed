-- ===== src/Tests/DmemSetup.antt =====
-- `Dmem::new` of a retail console on eight gigabytes.
use obliteration.Prelude.{
  ℕ, ◌≡◌, ◌≢◌, refl, ◌∷◌, replicate, arith, done, true, false, panic, stalled,
}
use obliteration.Kernel.Dmem.{
  MemoryInfo, copy_within, store, take_whole, take_middle, take_end, take_start, take_range,
  try_block, reserve_from, reserve_phys,
}
use obliteration.Kernel.Dmem.Configs.{DmemConfig, dmem_configs, has_mode}
use obliteration.Kernel.Dmem.Setup.{
  Config, Dmem, dipsw, base_mode, load_mode, reserve_or_panic, mini_app, reserve_rest, seek, place,
  adjust_pmap, config_of, reserve_game, reserve_apps, reserve_others, adjust_maps, new,
}
use obliteration.Kernel.Dmem.Modes.{Listed, modes-Listed, new_retail}
use obliteration.Kernel.Dmem.Ends.{new-ends}

abbrev retail : Config
retail = record { unknown_dmem1 = 0; is_testkit = false; is_devkit = false }

abbrev machine : MemoryInfo
machine = record {
  physmap = 0x4000 ∷ 0xA0000 ∷ 0x100000 ∷ 0x200000000 ∷ replicate 56 0;
  physmap_last = 2;
  end_page = 0x80000;
  unk = 2;
}

abbrev twenty : DmemConfig
twenty = record {
  game_size = 0x170000000;
  fmem_max = 0x40000000;
  mini_size = 0x70000000;
  mini_shared = true;
  vsh_size = 0x28000000;
  unk1 = 0xA00000;
}

abbrev started : Dmem
started = record { mode = 20; config = twenty; game_end = 0x1f8000000 }

abbrev machine' : MemoryInfo
machine' = record {
  physmap =
      0x4000
      ∷ 0xA0000
      ∷ 0x100000
      ∷ 0x60000000
      ∷ 0x1b8000000
      ∷ 0x1fd600000
      ∷ 0x1ff000000
      ∷ 0x200000000
      ∷ replicate 52 0;
  physmap_last = 6;
  end_page = 0x80000;
  unk = 2;
}

new_on_machine : new retail machine ≡ done (started, machine')
unfolding new reserve_game reserve_apps reserve_others adjust_maps adjust_pmap place seek config_of
    reserve_rest mini_app reserve_or_panic load_mode base_mode dipsw has_mode dmem_configs
    reserve_phys reserve_from try_block take_range take_whole take_middle take_end take_start store
    copy_within
new_on_machine = refl

modes-Listed_example : Listed 20
modes-Listed_example = modes-Listed 20 (omega arith)

new-ends_example : new retail machine ≢ panic stalled
new-ends_example = new-ends retail machine

new_retail_example : (◌≡◌ {A = ℕ} 20 20) × (config_of 20 ≡ done twenty)
new_retail_example =
    new_retail retail machine started machine'
      (record { first = refl; no_test = refl; no_dev = refl }) new_on_machine
