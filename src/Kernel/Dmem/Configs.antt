-- ===== src/Kernel/Dmem/Configs.antt =====
-- The table `DMEM_CONFIGS` of kernel/src/dmem/mod.rs and the sets of modes that `Dmem::new` tests.
use obliteration.Prelude.{
  ℕ, ◌+◌, ◌^◌, Bool, true, false, not, Option, none, some, List, [], ◌∷◌, leb, ◌==◌, if◌then◌else◌,
  bit_and, Flow, done, panic, overflow,
}

-- `DmemConfig` without its name, which is only printed.
pub record DmemConfig : Type 0 where
  pub game_size : ℕ
  pub fmem_max : ℕ
  pub mini_size : ℕ
  pub mini_shared : Bool
  pub vsh_size : ℕ
  pub unk1 : ℕ

unfoldable pub dmem_configs : List (Option DmemConfig)
dmem_configs =
    some (record {
      game_size = 0x148000000;
      fmem_max = 0x40000000;
      mini_size = 0x30000000;
      mini_shared = true;
      vsh_size = 0x17C00000;
      unk1 = 0x13600000;
    })
    ∷ some (record {
      game_size = 0x170000000;
      fmem_max = 0x40000000;
      mini_size = 0x30000000;
      mini_shared = true;
      vsh_size = 0x16C00000;
      unk1 = 0;
    })
    ∷ none
    ∷ some (record {
      game_size = 0x148000000;
      fmem_max = 0x40000000;
      mini_size = 0;
      mini_shared = false;
      vsh_size = 0x1CA00000;
      unk1 = 0xA00000;
    })
    ∷ some (record {
      game_size = 0x148000000;
      fmem_max = 0x40000000;
      mini_size = 0x30000000;
      mini_shared = false;
      vsh_size = 0x1A800000;
      unk1 = 0xA00000;
    })
    ∷ some (record {
      game_size = 0x124000000;
      fmem_max = 0x4000000;
      mini_size = 0x58800000;
      mini_shared = false;
      vsh_size = 0x28200000;
      unk1 = 0;
    })
    ∷ none
    ∷ none
    ∷ some (record {
      game_size = 0x148000000;
      fmem_max = 0x40000000;
      mini_size = 0x30000000;
      mini_shared = false;
      vsh_size = 0x1C200000;
      unk1 = 0x17FB00000;
    })
    ∷ some (record {
      game_size = 0x28C000000;
      fmem_max = 0x5C000000;
      mini_size = 0x30000000;
      mini_shared = false;
      vsh_size = 0x1B200000;
      unk1 = 0x3CB00000;
    })
    ∷ some (record {
      game_size = 0x148000000;
      fmem_max = 0x40000000;
      mini_size = 0x48000000;
      mini_shared = false;
      vsh_size = 0x19600000;
      unk1 = 0x13A700000;
    })
    ∷ some (record {
      game_size = 0x148000000;
      fmem_max = 0x40000000;
      mini_size = 0;
      mini_shared = false;
      vsh_size = 0x1CA00000;
      unk1 = 0x1F3C00000;
    })
    ∷ some (record {
      game_size = 0x148000000;
      fmem_max = 0x40000000;
      mini_size = 0x30000000;
      mini_shared = false;
      vsh_size = 0x1C200000;
      unk1 = 0x1FF600000;
    })
    ∷ some (record {
      game_size = 0x324000000;
      fmem_max = 0x4000000;
      mini_size = 0x58000000;
      mini_shared = false;
      vsh_size = 0x28000000;
      unk1 = 0;
    })
    ∷ none
    ∷ none
    ∷ some (record {
      game_size = 0x170000000;
      fmem_max = 0x40000000;
      mini_size = 0x70000000;
      mini_shared = true;
      vsh_size = 0x27C00000;
      unk1 = 0;
    })
    ∷ none
    ∷ none
    ∷ some (record {
      game_size = 0x170000000;
      fmem_max = 0x40000000;
      mini_size = 0x70000000;
      mini_shared = true;
      vsh_size = 0x27C00000;
      unk1 = 0xA00000;
    })
    ∷ some (record {
      game_size = 0x170000000;
      fmem_max = 0x40000000;
      mini_size = 0x70000000;
      mini_shared = true;
      vsh_size = 0x28000000;
      unk1 = 0xA00000;
    })
    ∷ []

-- `(mask & (1 << mode)) != 0`; a shift by 64 or more overflows.
unfoldable pub has_mode : ℕ → ℕ → Flow Bool
has_mode mask mode =
    if leb 64 mode then panic overflow else done (not (bit_and mask (2 ^ mode) == 0))

-- The modes with no configuration.
abbrev pub unconfigured : ℕ
unconfigured = 0x80C6C0C4

-- The modes with memory for mini-apps.
abbrev pub with_mini : ℕ
with_mini = 0x7F393733

-- The modes with memory for the shell.
abbrev pub with_vsh : ℕ
with_vsh = 0x7F393F3B

-- The modes that take no further memory.
abbrev pub without_rest : ℕ
without_rest = 0x80C6C0C4 + 0x20212022
