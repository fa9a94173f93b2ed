-- ===== src/Legacy/RegMgr/Table/From0.antt =====
-- legacy/src/regmgr/mod.rs: the entries of the registry from number 0 on.
use obliteration.Prelude.{List, [], ◌∷◌}
use obliteration.Legacy.RegMgr.Entry.{RegEntry, entry}

abbrev pub entries_0 : List RegEntry
entries_0 =
    entry 0x1010000 0x0 4 0x0 1 2 0x900001 0 0x0 0x0 0x0
    ∷ entry 0x1020000 0x0 4 0x0 1 2 0x400060 0 0x0 0x0 0x0
    ∷ entry 0x1030000 0x0 4 0x0 1 2 0x2000d 0 0x0 0x0 0x0
    ∷ entry 0x1040000 0x0 4 0x1000 1 2 0x0 0 0x0 0x0 0x0
    ∷ entry 0x1050000 0x0 4 0x1000 1 2 0x0 360 0x0 0x0 0x0
    ∷ entry 0x1060000 0x0 4 0x1000 1 2 0x900000 380 0x0 0x0 0x0
    ∷ entry 0x1070000 0x0 4 0x210 1 2 0x7e 0 0x0 0x0 0x0
    ∷ entry 0x1080000 0x0 4 0x220 1 2 0x700000 0 0x0 0x0 0x0
    ∷ entry 0x1400000 0x0 4 0x1000 1 2 0x0 0 0x0 0x0 0x300
    ∷ entry 0x1800100 0x0 4 0x200 16 2 0x0 0 0xa 0x10 0x0
    ∷ entry 0x1800200 0x0 4 0x210 16 2 0x28 0 0xa 0x10 0x0
    ∷ []

abbrev pub entries_11 : List RegEntry
entries_11 =
    entry 0x2010000 0x0 4 0x20 1 2 0x0 100 0x0 0x0 0x300
    ∷ entry 0x2020000 0x0 4 0x2020 1 2 0x1 104 0x0 0x0 0x1355
    ∷ entry 0x2030000 0x0 4 0x2020 1 2 0x1 0 0x0 0x0 0x0
    ∷ entry 0x2040000 0x0 4 0x20 1 2 0x1 0 0x0 0x0 0x0
    ∷ entry 0x2050000 0x1 65 0x20 2 2 0x50 0 0x0 0x0 0x355
    ∷ entry 0x2060000 0x0 4 0x20 1 2 0x0 0 0x0 0x0 0x300
    ∷ entry 0x2070000 0x0 4 0x10 1 2 0x0 0 0x0 0x0 0x0
    ∷ entry 0x2080000 0x0 4 0x20 1 2 0x1 0 0x0 0x0 0x0
    ∷ entry 0x20a0000 0x0 4 0x1000 1 2 0x1 0 0x0 0x0 0x11
    ∷ entry 0x20b0000 0x0 4 0x6020 1 2 0x1 64 0x0 0x0 0x1355
    ∷ entry 0x20c0000 0x0 4 0x20 1 2 0x0 372 0x0 0x0 0x0
    ∷ []

abbrev pub entries_22 : List RegEntry
entries_22 =
    entry 0x20e0000 0x0 4 0x20 1 2 0x1 0 0x0 0x0 0x11
    ∷ entry 0x20f0000 0x0 4 0x10 1 2 0x4 0 0x0 0x0 0x0
    ∷ entry 0x2100000 0x0 4 0x20 1 2 0x0 0 0x0 0x0 0x300
    ∷ entry 0x2110000 0x0 4 0x220 1 2 0x0 396 0x0 0x0 0x0
    ∷ entry 0x2120000 0x0 4 0x20 1 2 0x0 0 0x0 0x0 0x300
    ∷ entry 0x2800200 0x0 4 0x210 1 2 0x2501000 128 0x0 0x0 0x0
    ∷ entry 0x2800300 0x0 4 0x30 1 2 0x184 0 0x0 0x0 0x0
    ∷ entry 0x2800400 0x0 4 0x20 1 2 0x0 0 0x0 0x0 0x0
    ∷ entry 0x2800500 0x0 4 0x20 1 2 0x0 0 0x0 0x0 0x1
    ∷ entry 0x2800600 0x0 4 0x10 1 2 0x1501000 0 0x0 0x0 0x0
    ∷ entry 0x2800700 0x2 8 0x2020 2 2 0x91 0 0x0 0x0 0x0
    ∷ []

abbrev pub entries_33 : List RegEntry
entries_33 =
    entry 0x2800800 0x0 4 0x20 1 2 0x0 0 0x0 0x0 0x0
    ∷ entry 0x2800900 0x0 4 0x20 1 2 0x7550001 0 0x0 0x0 0x0
    ∷ entry 0x2800a00 0x0 4 0x20 1 2 0x7550000 0 0x0 0x0 0x0
    ∷ entry 0x2800b00 0x1 30 0x20 2 2 0x99 0 0x0 0x0 0x0
    ∷ entry 0x2800c00 0x0 4 0x20 1 2 0x0 0 0x0 0x0 0x0
    ∷ entry 0x2800d00 0x0 4 0x20 1 2 0x1 0 0x0 0x0 0x0
    ∷ entry 0x2804000 0x0 4 0x20 1 2 0x0 368 0x0 0x0 0x0
    ∷ entry 0x2820100 0x0 4 0x8020 1 2 0x2 0 0x0 0x0 0x300
    ∷ entry 0x2820200 0x0 4 0x420 1 2 0x1 0 0x0 0x0 0x1
    ∷ entry 0x2820300 0x0 4 0x8020 1 2 0x1 0 0x0 0x0 0x0
    ∷ entry 0x2820400 0x0 4 0x20 1 2 0xe10 0 0x0 0x0 0x0
    ∷ []

abbrev pub entries_44 : List RegEntry
entries_44 =
    entry 0x2820500 0x0 4 0x2020 1 2 0x0 0 0x0 0x0 0x300
    ∷ entry 0x2820600 0x0 4 0x2020 1 2 0x3c 0 0x0 0x0 0x300
    ∷ entry 0x2820700 0x0 4 0x20 1 2 0x0 0 0x0 0x0 0x0
    ∷ entry 0x2820800 0x0 4 0x8020 1 2 0x1 0 0x0 0x0 0x0
    ∷ entry 0x2820900 0x2 8 0x20 2 2 0xb7 0 0x0 0x0 0x0
    ∷ entry 0x2820b00 0x0 4 0x2020 1 2 0x1 0 0x0 0x0 0x0
    ∷ entry 0x2820c00 0x0 4 0x20 1 2 0x0 0 0x0 0x0 0x1011
    ∷ entry 0x2820e00 0x0 4 0x1000 1 2 0x0 0 0x0 0x0 0x0
    ∷ entry 0x2780100 0x0 4 0x210 1 2 0x1 0 0x0 0x0 0x0
    ∷ entry 0x2780200 0x0 4 0x210 1 2 0x1 0 0x0 0x0 0x0
    ∷ entry 0x2780300 0x0 4 0x210 1 2 0x1 0 0x0 0x0 0x0
    ∷ []

abbrev pub entries_55 : List RegEntry
entries_55 =
    entry 0x2780400 0x0 4 0x210 1 2 0x1 0 0x0 0x0 0x0
    ∷ entry 0x27c0100 0x0 4 0x20 1 2 0xffffffff 0 0x0 0x0 0x11
    ∷ entry 0x2860100 0x0 4 0x1000 1 2 0xffffffff 0 0x0 0x0 0x0
    ∷ entry 0x2860300 0x0 4 0x1000 1 2 0xffffffff 0 0x0 0x0 0x0
    ∷ entry 0x2860500 0x1 40 0x10 2 2 0xbf 0 0x0 0x0 0x0
    ∷ entry 0x2880100 0x0 4 0x8020 1 2 0x0 0 0x0 0x0 0x0
    ∷ entry 0x2880200 0x0 4 0x20 1 2 0x0 0 0x0 0x0 0x300
    ∷ entry 0x2900100 0x0 4 0x10 1 2 0x1 0 0x0 0x0 0x0
    ∷ entry 0x2a00100 0x1 30 0x20 2 2 0xe7 0 0x0 0x0 0x0
    ∷ entry 0x2b00100 0x0 4 0x210 1 2 0x0 0 0x0 0x0 0x0
    ∷ entry 0x2b00200 0x0 4 0x210 1 2 0x0 0 0x0 0x0 0x0
    ∷ []

abbrev pub entries_66 : List RegEntry
entries_66 =
    entry 0x2b80100 0x2 8 0x10 2 2 0x105 0 0x0 0x0 0x0
    ∷ entry 0x2bc0100 0x2 8 0x210 2 2 0x10d 0 0x0 0x0 0x0
    ∷ entry 0x2bc0200 0x2 8 0x210 2 2 0x115 0 0x0 0x0 0x0
    ∷ entry 0x2bc0300 0x2 8 0x210 2 2 0x11d 0 0x0 0x0 0x0
    ∷ entry 0x2bc0400 0x2 8 0x210 2 2 0x125 0 0x0 0x0 0x0
    ∷ entry 0x2bc0500 0x2 8 0x210 2 2 0x12d 0 0x0 0x0 0x0
    ∷ entry 0x2bc0600 0x2 8 0x210 2 2 0x135 0 0x0 0x0 0x0
    ∷ entry 0x2bc0700 0x2 8 0x210 2 2 0x13d 0 0x0 0x0 0x0
    ∷ entry 0x2bc0800 0x2 8 0x210 2 2 0x145 0 0x0 0x0 0x0
    ∷ entry 0x2bc0900 0x2 8 0x210 2 2 0x14d 0 0x0 0x0 0x0
    ∷ entry 0x2bc0a00 0x2 8 0x210 2 2 0x155 0 0x0 0x0 0x0
    ∷ []

abbrev pub entries_77 : List RegEntry
entries_77 =
    entry 0x2bc0b00 0x2 8 0x210 2 2 0x15d 0 0x0 0x0 0x0
    ∷ entry 0x2bc4001 0x1 16 0x210 16 2 0x165 0 0x14 0x8 0x0
    ∷ entry 0x2bc4002 0x2 8 0x210 16 2 0x2a5 0 0x14 0x8 0x0
    ∷ entry 0x2bc4003 0x2 8 0x210 16 2 0x345 0 0x14 0x8 0x0
    ∷ entry 0x2be0100 0x0 4 0x20 1 2 0x0 0 0x0 0x0 0x0
    ∷ entry 0x2be0200 0x0 4 0x20 1 2 0x0 0 0x0 0x0 0x0
    ∷ entry 0x2c30100 0x0 4 0x1000 1 2 0x0 0 0x0 0x0 0x3
    ∷ entry 0x2c30200 0x0 4 0x1000 1 2 0x0 0 0x0 0x0 0x3
    ∷ entry 0x3800100 0x0 4 0x20 1 2 0x9 0 0x0 0x0 0x355
    ∷ entry 0x3800200 0x0 4 0x20 1 2 0x0 0 0x0 0x0 0x310
    ∷ entry 0x3800300 0x0 4 0x20 1 2 0xff 0 0x0 0x0 0x310
    ∷ []

abbrev pub entries_88 : List RegEntry
entries_88 =
    entry 0x3800400 0x0 4 0x20 1 2 0x5553 0 0x0 0x0 0x310
    ∷ entry 0x3800500 0x0 4 0x20 1 2 0x0 0 0x0 0x0 0x310
    ∷ entry 0x3800600 0x0 4 0x20 1 2 0x0 0 0x0 0x0 0x300
    ∷ entry 0x3800700 0x0 4 0x20 1 2 0x0 0 0x0 0x0 0x300
    ∷ entry 0x3800800 0x1 16 0x20 2 2 0x3e5 0 0x0 0x0 0x310
    ∷ entry 0x3800900 0x0 4 0x20 1 2 0x0 0 0x0 0x0 0x300
    ∷ entry 0x3800a00 0x0 4 0x1000 1 2 0x0 0 0x0 0x0 0x111
    ∷ entry 0x5010000 0x0 4 0x2020 1 2 0xf 0 0x0 0x0 0x355
    ∷ entry 0x5020000 0x0 4 0x2020 1 2 0x2 0 0x0 0x0 0x355
    ∷ entry 0x5030000 0x0 4 0x2020 1 2 0x0 0 0x0 0x0 0x355
    ∷ entry 0x5040000 0x0 4 0x2020 1 2 0x1 0 0x0 0x0 0x355
    ∷ []
