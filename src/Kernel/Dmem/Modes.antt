-- ===== src/Kernel/Dmem/Modes.antt =====
-- The modes of the direct memory system: the table against the sets of modes, and the mode that a
-- retail console ends up in.
use mathlib.Core.Bool.{false≢true}
use obliteration.Prelude.{
  ℕ, zero, suc, ◌+◌, ◌*◌, ◌<◌, ◌≤◌, ◌≡◌, ◌↔◌, refl, sym, ◌∙◌, Bool, true, false, not, ◌&&◌, arith,
  ◌==◌, if◌then◌else◌, Flow, done, panic, unwrap_none, out_of_bounds, Ensures, Ensures-bind,
  Ensures-done, get_elem?-none,
}
use obliteration.Kernel.Dmem.{MemoryInfo}
use obliteration.Kernel.Dmem.Configs.{
  DmemConfig, dmem_configs, has_mode, unconfigured, with_mini, without_rest,
}
use obliteration.Kernel.Dmem.Setup.{
  Config, Dmem, dipsw, base_mode, load_mode, mini_app, config_of, reserve_game, reserve_apps, new,
  reserve_or_panic, reserve_others, adjust_maps,
}

-- Every number below a bound passes a test.
all_below : ℕ → (ℕ → Bool) → Bool
all_below zero p = true
all_below (suc n) p = p n && all_below n p

all_below-holds : (n : ℕ) (p : ℕ → Bool) (x : ℕ) → all_below n p ≡ true → x < n → p x ≡ true
unfolding all_below
all_below-holds zero p x h k = absurd (omega arith)
all_below-holds (suc n) p x h k = ground (arith, all_below-holds n p x)

-- The test of one mode: the table and the two sets agree.
agrees : Flow Bool → Flow Bool → Flow DmemConfig → Bool
agrees (done true) rest (panic unwrap_none) = true
agrees (done false) (done rest) (done dc) = if dc.unk1 == 0 then rest else not rest
agrees bad rest entry = false

mode_agrees : ℕ → Bool
mode_agrees mode = agrees (has_mode unconfigured mode) (has_mode without_rest mode) (config_of mode)

modes_agree : all_below 21 mode_agrees ≡ true
unfolding all_below mode_agrees agrees has_mode config_of dmem_configs
modes_agree = refl

-- What the table says of a mode.
pub record Listed (mode : ℕ) : Type 0 where
  pub absent : has_mode unconfigured mode ≡ done true → config_of mode ≡ panic unwrap_none
  pub present :
      has_mode unconfigured mode ≡ done false → (dc : DmemConfig) × (config_of mode ≡ done dc)
  pub rest :
      (dc : DmemConfig)
      → config_of mode ≡ done dc
      → (has_mode without_rest mode ≡ done true) ↔ (dc.unk1 ≡ 0)

agrees_lem :
    (bad rest : Flow Bool) (entry : Flow DmemConfig)
    → agrees bad rest entry ≡ true
    → (bad ≡ done true → entry ≡ panic unwrap_none)
      × (bad ≡ done false → (dc : DmemConfig) × (entry ≡ done dc))
      × ((dc : DmemConfig) → entry ≡ done dc → (rest ≡ done true) ↔ (dc.unk1 ≡ 0))
unfolding agrees
agrees_lem (done true) rest (done dc) h = cc
agrees_lem (done true) rest (panic e) h = ground arith
agrees_lem (done false) (done r) (done dc) h =
    (λ e. cc, λ e. (dc, refl), λ d e. (λ k. ground arith, λ k. ground arith))
agrees_lem (done false) (done r) (panic e) h = cc
agrees_lem (done false) (panic e) (done dc) h = cc
agrees_lem (done false) (panic e) (panic f) h = cc
agrees_lem (panic e) rest entry h = cc

-- A mode of the table that is in `unconfigured` has no entry, and one that is not has an entry, so
-- the entry that `Dmem::new` unwraps is there; and the modes with an entry that are in
-- `without_rest` are those with nothing left to reserve, so its last loop never starts with zero
-- bytes.
pub modes-Listed : (mode : ℕ) → mode < 21 → Listed mode
unfolding mode_agrees
modes-Listed mode h =
    let (absent, present, rest) =
      agrees_lem (has_mode unconfigured mode) (has_mode without_rest mode) (config_of mode)
        (all_below-holds 21 mode_agrees mode modes_agree h) in
    record { absent = absent; present = present; rest = rest }

-- A retail console.
pub record IsRetail (c : Config) : Type 0 where
  pub first : c.unknown_dmem1 ≡ 0
  pub no_test : c.is_testkit ≡ false
  pub no_dev : c.is_devkit ≡ false

load_mode_retail :
    (c : Config) (mi : MemoryInfo) → IsRetail c → load_mode c mi ≡ done (4 + mi.unk * 8)
unfolding load_mode base_mode dipsw
load_mode_retail c mi r = ground arith

entry_four : (dc : DmemConfig) → config_of 4 ≡ done dc → dc.mini_shared ≡ false
unfolding config_of dmem_configs
entry_four dc e = ground arith

entry_twelve : (dc : DmemConfig) → config_of 12 ≡ done dc → dc.mini_shared ≡ false
unfolding config_of dmem_configs
entry_twelve dc e = ground arith

no_entry : (mode : ℕ) → 21 ≤ mode → config_of mode ≡ panic out_of_bounds
unfolding config_of dmem_configs
no_entry mode h = rw (get_elem?-none dmem_configs mode (omega arith))

shares_mini :
    (c : Config) (d : Dmem) (mi : MemoryInfo) {mi' : MemoryInfo}
    → reserve_apps c d mi ≡ done mi'
    → has_mode with_mini d.mode ≡ done true
    → d.config.mini_shared ≡ true
unfolding reserve_apps mini_app
shares_mini c d mi e h = ground arith

game_config :
    (c : Config) (mi : MemoryInfo) {d : Dmem} {at : ℕ} {mi' : MemoryInfo}
    → IsRetail c
    → reserve_game c mi ≡ done (d, at, mi')
    → (d.mode ≡ 4 + mi.unk * 8) × (config_of d.mode ≡ done d.config)
unfolding reserve_game
game_config c mi r e = ground (arith, load_mode_retail c mi r)

-- The mode of the number that the machine reports, if the mini-app's memory can be reserved.
only_twenty :
    (unk : ℕ) (dc : DmemConfig)
    → config_of (4 + unk * 8) ≡ done dc
    → (has_mode with_mini (4 + unk * 8) ≡ done true → dc.mini_shared ≡ true)
    → 4 + unk * 8 ≡ 20
only_twenty zero dc e h = absurd (false≢true (sym (entry_four dc e) ∙ h (unfold has_mode in refl)))
only_twenty (suc zero) dc e h =
    absurd (false≢true (sym (entry_twelve dc e) ∙ h (unfold has_mode in refl)))
only_twenty (suc (suc zero)) dc e h = refl
only_twenty (suc (suc (suc n))) dc e h =
    let out = no_entry (4 + suc (suc (suc n)) * 8) (omega arith) in cc

-- What is known of the mode once the shell's memory is reserved.
retail_mode :
    (c : Config) (mi : MemoryInfo) (d : Dmem) {at : ℕ} (mi' : MemoryInfo) {mi'' : MemoryInfo}
    → IsRetail c
    → reserve_game c mi ≡ done (d, at, mi')
    → reserve_apps c d mi' ≡ done mi''
    → (d.mode ≡ 20) × (config_of 20 ≡ done d.config)
retail_mode c mi d mi' r game apps =
    let (mode, entry) = game_config c mi r game in
    let twenty =
      only_twenty mi.unk d.config (rw (← mode) entry) (λ h. shares_mini c d mi' apps (rw mode h)) in
    (mode ∙ twenty, rw (← twenty) (rw (← mode) entry))

-- On a retail console `Dmem::new` succeeds in one mode only, number 20: the other modes that such a
-- console can be in have no entry, or ask for mini-app memory of a kind that is not implemented.
pub new_retail :
    (c : Config) (mi : MemoryInfo) (d : Dmem) (mi' : MemoryInfo)
    → IsRetail c
    → new c mi ≡ done (d, mi')
    → (d.mode ≡ 20) × (config_of 20 ≡ done d.config)
new_retail c mi d mi' r e =
    Ensures-done (λ p. (p.0.mode ≡ 20) × (config_of 20 ≡ done p.0.config)) (new c mi) every e
  where
    every : Ensures (λ p. (p.0.mode ≡ 20) × (config_of 20 ≡ done p.0.config)) (new c mi)
    every =
        unfold new in
        Ensures-bind _ (reserve_or_panic mi 0x1000000 1) _ λ high _.
          Ensures-bind _ (reserve_game c high.1) _ λ game e2.
            Ensures-bind _ (reserve_apps c game.0 game.2) _ λ apps e3.
              Ensures-bind _ (reserve_others game.0 apps) _ λ others _.
                Ensures-bind _ (adjust_maps game.0 high.0 others) _
                  λ maps _. retail_mode c high.1 game.0 game.2 r e2 e3
