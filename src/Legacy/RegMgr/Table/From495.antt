-- ===== src/Legacy/RegMgr/Table/From495.antt =====
-- legacy/src/regmgr/mod.rs: the entries of the registry from number 495 on.
use obliteration.Prelude.{List, [], ◌∷◌}
use obliteration.Legacy.RegMgr.Entry.{RegEntry, entry}

abbrev pub entries_495 : List RegEntry
entries_495 =
    entry 0x41810000 0x0 4 0x20 1 2 0x1 0 0x0 0x0 0x0
    ∷ entry 0x41820000 0x0 4 0x20 1 2 0x0 0 0x0 0x0 0x0
    ∷ entry 0x41010100 0x0 4 0x4020 16 2 0x1d499 0 0x20 0x10 0x0
    ∷ entry 0x41010200 0x0 4 0x4020 16 2 0x1d519 0 0x20 0x10 0x0
    ∷ entry 0x41010300 0x2 16 0x4020 16 2 0x1d599 0 0x20 0x10 0x0
    ∷ entry 0x41010400 0x0 4 0x4020 16 2 0x1d799 0 0x20 0x10 0x0
    ∷ entry 0x42800100 0x0 4 0x4020 16 2 0x1d819 0 0x10 0x10 0x0
    ∷ entry 0x42800200 0x0 4 0x4020 16 2 0x1d859 0 0x10 0x10 0x0
    ∷ entry 0x42800300 0x2 16 0x4020 16 2 0x1d899 0 0x10 0x10 0x0
    ∷ entry 0x42800400 0x0 4 0x4020 16 2 0x1d999 0 0x10 0x10 0x0
    ∷ entry 0x43800100 0x0 4 0x4020 16 2 0x1d9d9 0 0x10 0x10 0x0
    ∷ []

abbrev pub entries_506 : List RegEntry
entries_506 =
    entry 0x43800200 0x0 4 0x4020 16 2 0x1da19 0 0x10 0x10 0x0
    ∷ entry 0x43800300 0x2 16 0x4020 16 2 0x1da59 0 0x10 0x10 0x0
    ∷ entry 0x43800400 0x0 4 0x4020 16 2 0x1db59 0 0x10 0x10 0x0
    ∷ entry 0xc8800100 0x0 4 0x20 16 2 0x1db99 0 0x10 0x10 0x0
    ∷ entry 0xc8800200 0x0 4 0x20 16 2 0x1dbd9 0 0x10 0x10 0x0
    ∷ entry 0xc8800300 0x2 16 0x20 16 2 0x1dc19 0 0x10 0x10 0x0
    ∷ entry 0xc8800400 0x0 4 0x20 16 2 0x1dd19 0 0x10 0x10 0x0
    ∷ entry 0x45010000 0x0 4 0x20 1 2 0x0 0 0x0 0x0 0x0
    ∷ entry 0x45020000 0x0 4 0x20 1 2 0x2 0 0x0 0x0 0x0
    ∷ entry 0x45030000 0x0 4 0x20 1 2 0x0 0 0x0 0x0 0x0
    ∷ entry 0x45050000 0x0 4 0x20 1 2 0x0 0 0x0 0x0 0x0
    ∷ []

abbrev pub entries_517 : List RegEntry
entries_517 =
    entry 0x45060000 0x0 4 0x20 1 2 0x0 0 0x0 0x0 0x0
    ∷ entry 0x45400000 0x0 4 0x20 1 2 0x0 0 0x0 0x0 0x0
    ∷ entry 0x55010000 0x0 4 0x20 1 2 0x0 0 0x0 0x0 0x0
    ∷ entry 0x56010000 0x1 33 0x20 2 2 0x1dd59 0 0x0 0x0 0x0
    ∷ entry 0x64800100 0x1 17 0x4020 16 2 0x1dd7a 0 0x10 0x10 0x0
    ∷ entry 0x64800200 0x2 6 0x4020 16 2 0x1de8a 0 0x10 0x10 0x0
    ∷ entry 0x64800300 0x2 8 0x4020 16 2 0x1deea 0 0x10 0x10 0x0
    ∷ entry 0x46010100 0x0 4 0x20 1 2 0x0 0 0x0 0x0 0xf0
    ∷ entry 0x46010200 0x0 4 0x20 1 2 0x0 0 0x0 0x0 0xf0
    ∷ entry 0x46010300 0x0 4 0x20 1 2 0x2027 0 0x0 0x0 0xf0
    ∷ entry 0x49010000 0x0 4 0x20 1 2 0x0 0 0x0 0x0 0x310
    ∷ []

abbrev pub entries_528 : List RegEntry
entries_528 =
    entry 0x49020100 0x0 4 0x20 1 2 0x0 0 0x0 0x0 0x355
    ∷ entry 0x49020200 0x0 4 0x20 1 2 0x1 0 0x0 0x0 0x355
    ∷ entry 0x49020300 0x0 4 0x20 1 2 0x20202 0 0x0 0x0 0x355
    ∷ entry 0x49020400 0x0 4 0x20 1 2 0x64 0 0x0 0x0 0x355
    ∷ entry 0x49020500 0x0 4 0x20 1 2 0x64 0 0x0 0x0 0x355
    ∷ entry 0x49020600 0x0 4 0x20 1 2 0x2 0 0x0 0x0 0x355
    ∷ entry 0x49020700 0x0 4 0x20 1 2 0x0 0 0x0 0x0 0x355
    ∷ entry 0x49020800 0x0 4 0x20 1 2 0x0 0 0x0 0x0 0x355
    ∷ entry 0x49020900 0x0 4 0x20 1 2 0x0 0 0x0 0x0 0x355
    ∷ entry 0x49020a00 0x0 4 0x20 1 2 0x64 0 0x0 0x0 0x355
    ∷ entry 0x49020b00 0x0 4 0x20 1 2 0x20202 0 0x0 0x0 0x355
    ∷ []

abbrev pub entries_539 : List RegEntry
entries_539 =
    entry 0x49020c00 0x0 4 0x20 1 2 0x0 0 0x0 0x0 0x355
    ∷ entry 0x4b010000 0x0 4 0x20 1 2 0x0 0 0x0 0x0 0x33
    ∷ entry 0x4f010000 0x0 4 0x10 1 2 0x0 0 0x0 0x0 0x10
    ∷ entry 0x4f400101 0x2 6 0x20 16 2 0x1df6a 0 0xa 0x8 0x10
    ∷ entry 0x4f400102 0x0 4 0x20 16 2 0x1dfa6 0 0xa 0x8 0x10
    ∷ entry 0x4f400103 0x2 64 0x20 16 2 0x1dfce 0 0xa 0x8 0x10
    ∷ entry 0x4f400104 0x2 8 0x20 16 2 0x1e24e 0 0xa 0x8 0x10
    ∷ entry 0x50400100 0x2 48 0x20 2 2 0x1e29e 0 0x0 0x0 0x0
    ∷ entry 0x70030000 0x0 4 0x20 1 2 0x0 0 0x0 0x0 0x300
    ∷ entry 0x70040000 0x0 4 0x20 1 2 0x0 0 0x0 0x0 0x300
    ∷ entry 0x70050000 0x0 4 0x20 1 2 0x0 0 0x0 0x0 0x300
    ∷ []

abbrev pub entries_550 : List RegEntry
entries_550 =
    entry 0x73010100 0x1 32 0x20 2 2 0x1e2ce 0 0x0 0x0 0x0
    ∷ entry 0x73010200 0x1 32 0x20 2 2 0x1e2ee 0 0x0 0x0 0x0
    ∷ entry 0x73010300 0x1 32 0x20 2 2 0x1e30e 0 0x0 0x0 0x0
    ∷ entry 0x73010400 0x1 32 0x20 2 2 0x1e32e 0 0x0 0x0 0x0
    ∷ entry 0x73010500 0x1 32 0x20 2 2 0x1e34e 0 0x0 0x0 0x0
    ∷ entry 0x73010600 0x1 32 0x20 2 2 0x1e36e 0 0x0 0x0 0x0
    ∷ entry 0x73010700 0x1 256 0x20 2 2 0x1e38e 0 0x0 0x0 0x0
    ∷ entry 0x73010800 0x1 32 0x20 2 2 0x1e48e 0 0x0 0x0 0x0
    ∷ entry 0x76800000 0x0 4 0x20 1 2 0xffffffff 0 0x0 0x0 0x30
    ∷ entry 0x7802c9c8 0x0 4 0x30 1 2 0x1 0 0x0 0x0 0x300
    ∷ []
