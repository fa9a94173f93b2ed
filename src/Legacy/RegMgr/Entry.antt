-- ===== src/Legacy/RegMgr/Entry.antt =====
-- legacy/src/regmgr/mod.rs: an entry of the registry, and the errors.
use obliteration.Prelude.{ℕ}

-- `key` is the number of the `RegKey`.
pub record RegEntry : Type 0 where
  pub key : ℕ
  pub unk4 : ℕ
  pub len : ℕ
  pub unk8 : ℕ
  pub unk6 : ℕ
  pub unk5 : ℕ
  pub value : ℕ
  pub unk9 : ℕ
  pub unk1 : ℕ
  pub unk2 : ℕ
  pub unk3 : ℕ

-- The fields in the order of the source.
abbrev pub entry : ℕ → ℕ → ℕ → ℕ → ℕ → ℕ → ℕ → ℕ → ℕ → ℕ → ℕ → RegEntry
entry key unk4 len unk8 unk6 unk5 value unk9 unk1 unk2 unk3 = record {
  key = key;
  unk4 = unk4;
  len = len;
  unk8 = unk8;
  unk6 = unk6;
  unk5 = unk5;
  value = value;
  unk9 = unk9;
  unk1 = unk1;
  unk2 = unk2;
  unk3 = unk3;
}

pub data RegError : Type 0 where
  not_found : ℕ → RegError
  checksum_mismatched : ℕ → ℕ → RegError
  v800d0206 v800d0207 v800d0208 v800d0214 v800d0216 v800d0219 v800d021f : RegError

unfoldable pub code : RegError → ℕ
code (not_found k) = 0x800d0203
code (checksum_mismatched g h) = 0x800d0204
code v800d0206 = 0x800d0206
code v800d0207 = 0x800d0207
code v800d0208 = 0x800d0208
code v800d0214 = 0x800d0214
code v800d0216 = 0x800d0216
code v800d0219 = 0x800d0219
code v800d021f = 0x800d021f
