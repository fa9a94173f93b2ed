-- ===== src/Legacy/RegMgr/Table/From297.antt =====
-- legacy/src/regmgr/mod.rs: the entries of the registry from number 297 on.
use obliteration.Prelude.{List, [], ◌∷◌}
use obliteration.Legacy.RegMgr.Entry.{RegEntry, entry}

abbrev pub entries_297 : List RegEntry
entries_297 =
    entry 0x780c02b 0x0 4 0x20 16 2 0x560b 0 0x10 0x10 0x0
    ∷ entry 0x780c02c 0x1 37 0x20 16 2 0x564b 0 0x10 0x10 0x0
    ∷ entry 0x780c041 0x1 841 0x20 16 2 0x589b 0 0x10 0x10 0x0
    ∷ entry 0x780c042 0x0 4 0x20 16 2 0x8d2b 0 0x10 0x10 0x0
    ∷ entry 0x780c043 0x1 601 0x20 16 2 0x8d6b 0 0x10 0x10 0x0
    ∷ entry 0x780c501 0x0 4 0x20 16 2 0xb2fb 0 0x10 0x10 0x0
    ∷ entry 0x780c502 0x0 4 0x20 16 2 0xb33b 0 0x10 0x10 0x0
    ∷ entry 0x780c504 0x1 81 0x20 16 2 0xb37b 0 0x10 0x10 0x0
    ∷ entry 0x780c505 0x1 81 0x20 16 2 0xb88b 0 0x10 0x10 0x0
    ∷ entry 0x780c506 0x0 4 0x20 16 2 0xbd9b 0 0x10 0x10 0x0
    ∷ entry 0x780c601 0x0 4 0x20 16 2 0xbddb 0 0x10 0x10 0x0
    ∷ []

abbrev pub entries_308 : List RegEntry
entries_308 =
    entry 0x780c602 0x1 512 0x20 16 2 0xbe1b 0 0x10 0x10 0x0
    ∷ entry 0x780c603 0x2 240 0x20 16 2 0xde1b 0 0x10 0x10 0x0
    ∷ entry 0x780c701 0x0 4 0x20 16 2 0xed1b 0 0x10 0x10 0x0
    ∷ entry 0x780d001 0x0 4 0x20 16 2 0xed5b 0 0x10 0x10 0x0
    ∷ entry 0x780d002 0x0 4 0x20 16 2 0xed9b 0 0x10 0x10 0x0
    ∷ entry 0x780d101 0x0 4 0x20 16 2 0xeddb 0 0x10 0x10 0x0
    ∷ entry 0x780d102 0x0 4 0x20 16 2 0xee1b 0 0x10 0x10 0x0
    ∷ entry 0x780dc01 0x1 37 0x20 16 2 0xee5b 0 0x10 0x10 0x0
    ∷ entry 0x780dc02 0x0 4 0x20 16 2 0xf0ab 0 0x10 0x10 0x0
    ∷ entry 0x780dc03 0x0 4 0x20 16 2 0xf0eb 0 0x10 0x10 0x0
    ∷ entry 0x780dc04 0x0 4 0x20 16 2 0xf12b 0 0x10 0x10 0x300
    ∷ []

abbrev pub entries_319 : List RegEntry
entries_319 =
    entry 0x780dc05 0x0 4 0x20 16 2 0xf16b 0 0x10 0x10 0x0
    ∷ entry 0x780dc06 0x0 4 0x20 16 2 0xf1ab 0 0x10 0x10 0x0
    ∷ entry 0x780dc07 0x0 4 0x20 16 2 0xf1eb 0 0x10 0x10 0x0
    ∷ entry 0x780e001 0x0 4 0x20 16 2 0xf22b 0 0x10 0x10 0x0
    ∷ entry 0x780e002 0x0 4 0x20 16 2 0xf26b 0 0x10 0x10 0x0
    ∷ entry 0x780e003 0x0 4 0x20 16 2 0xf2ab 0 0x10 0x10 0x0
    ∷ entry 0x780e004 0x0 4 0x20 16 2 0xf2eb 0 0x10 0x10 0x0
    ∷ entry 0x780e005 0x0 4 0x20 16 2 0xf32b 0 0x10 0x10 0x0
    ∷ entry 0x780e101 0x0 4 0x20 16 2 0xf36b 0 0x10 0x10 0x0
    ∷ entry 0x780e401 0x0 4 0x20 16 2 0xf3ab 0 0x10 0x10 0x0
    ∷ entry 0x780e402 0x0 4 0x20 16 2 0xf3eb 0 0x10 0x10 0x0
    ∷ []

abbrev pub entries_330 : List RegEntry
entries_330 =
    entry 0x780e403 0x0 4 0x10 16 2 0xf42b 0 0x10 0x10 0x0
    ∷ entry 0x780f801 0x2 64 0x1000 16 2 0xf46b 0 0x10 0x10 0x0
    ∷ entry 0x780f802 0x2 8 0x1000 16 2 0xf86b 0 0x10 0x10 0x0
    ∷ entry 0x780f803 0x0 4 0x1000 16 2 0xf8eb 0 0x10 0x10 0x0
    ∷ entry 0x9010000 0x0 4 0x20 1 2 0x0 0 0x0 0x0 0x355
    ∷ entry 0x9020000 0x0 4 0x20 1 2 0x0 0 0x0 0x0 0x355
    ∷ entry 0x9030000 0x0 4 0x20 1 2 0x0 0 0x0 0x0 0x355
    ∷ entry 0x9040000 0x0 4 0x20 1 2 0x0 0 0x0 0x0 0x355
    ∷ entry 0x9050000 0x0 4 0x20 1 2 0x0 0 0x0 0x0 0x300
    ∷ entry 0x9060000 0x0 4 0x20 1 2 0x0 0 0x0 0x0 0x355
    ∷ entry 0x9070000 0x0 4 0x20 1 2 0x0 0 0x0 0x0 0x355
    ∷ []

abbrev pub entries_341 : List RegEntry
entries_341 =
    entry 0x9400100 0x0 4 0x20 1 2 0x0 0 0x0 0x0 0x355
    ∷ entry 0x9400200 0x0 4 0x20 1 2 0x3 0 0x0 0x0 0x355
    ∷ entry 0x9400300 0x0 4 0x20 1 2 0xc 0 0x0 0x0 0x355
    ∷ entry 0x9400400 0x0 4 0x20 1 2 0x1 0 0x0 0x0 0x300
    ∷ entry 0xa030000 0x0 4 0x2020 1 2 0x0 72 0x0 0x0 0x333
    ∷ entry 0xa040000 0x0 4 0x20 1 2 0x0 76 0x0 0x0 0x333
    ∷ entry 0xa060000 0x0 4 0x20 1 2 0x1 116 0x0 0x0 0x333
    ∷ entry 0xa070000 0x0 4 0x20 1 2 0x2e 120 0x0 0x0 0x333
    ∷ entry 0xa080000 0x0 4 0x2020 1 2 0x1 136 0x0 0x0 0x333
    ∷ entry 0xa0a0000 0x0 4 0x20 1 2 0x0 140 0x0 0x0 0x300
    ∷ entry 0xa0d0000 0x0 4 0x220 1 2 0x729 0 0x0 0x0 0x355
    ∷ []

abbrev pub entries_352 : List RegEntry
entries_352 =
    entry 0xa0f0000 0x2 128 0x20 2 2 0xf92b 216 0x0 0x0 0x30
    ∷ entry 0xa100000 0x0 4 0x20 1 2 0x0 348 0x0 0x0 0x0
    ∷ entry 0xa110000 0x0 4 0x20 1 2 0x0 352 0x0 0x0 0x311
    ∷ entry 0xa120000 0x0 4 0x20 1 2 0x0 388 0x0 0x0 0x300
    ∷ entry 0xa130000 0x0 4 0x20 1 2 0x0 392 0x0 0x0 0x0
    ∷ entry 0xa140000 0x0 4 0x20 1 2 0x0 400 0x0 0x0 0x300
    ∷ entry 0xa150000 0x0 4 0x20 1 2 0x1 404 0x0 0x0 0x300
    ∷ entry 0xa160000 0x0 4 0x20 1 2 0x0 408 0x0 0x0 0x0
    ∷ entry 0xa170000 0x0 4 0x20 1 2 0x0 0 0x0 0x0 0x301
    ∷ entry 0xa180000 0x2 4 0x20 1 2 0xffffffff 0 0x0 0x0 0x311
    ∷ entry 0xa190000 0x2 4 0x20 1 2 0xffffffff 0 0x0 0x0 0x311
    ∷ []

abbrev pub entries_363 : List RegEntry
entries_363 =
    entry 0xa1a0000 0x2 4 0x20 1 2 0xffffffff 0 0x0 0x0 0x311
    ∷ entry 0xa1b0000 0x0 4 0x1000 1 2 0x1 0 0x0 0x0 0x300
    ∷ entry 0xa1c0000 0x2 1024 0x20 2 2 0xf9ab 0 0x0 0x0 0x0
    ∷ entry 0xb030000 0x0 4 0x20 1 2 0x1 344 0x0 0x0 0x300
    ∷ entry 0xb040000 0x0 4 0x20 1 2 0x0 0 0x0 0x0 0x355
    ∷ entry 0xb050000 0x0 4 0x20 1 2 0x0 0 0x0 0x0 0x300
    ∷ entry 0xb060000 0x0 4 0x20 1 2 0x0 152 0x0 0x0 0x300
    ∷ entry 0xb070000 0x0 4 0x20 1 2 0x18 156 0x0 0x0 0x300
    ∷ entry 0xb080000 0x0 4 0x20 1 2 0x0 160 0x0 0x0 0x300
    ∷ entry 0xb090000 0x0 4 0x20 1 2 0x0 356 0x0 0x0 0x300
    ∷ entry 0xb400101 0x2 32 0x20 16 2 0xfdab 0 0x14 0x8 0x0
    ∷ []

abbrev pub entries_374 : List RegEntry
entries_374 =
    entry 0xc010000 0x2 8 0x4020 2 2 0x1002b 0 0x0 0x0 0x30
    ∷ entry 0xc020000 0x0 4 0x20 1 2 0x0 0 0x0 0x0 0x300
    ∷ entry 0xc400101 0x2 32 0x20 16 2 0x10033 0 0x14 0x8 0x0
    ∷ entry 0x12010100 0x2 1000 0x220 16 2 0x102b3 0 0x20 0x10 0x0
    ∷ entry 0x14140100 0x1 16 0x20 2 2 0x17fb3 0 0x0 0x0 0x303
    ∷ entry 0x14140200 0x1 16 0x20 2 2 0x17fc3 0 0x0 0x0 0x303
    ∷ entry 0x14140300 0x1 16 0x20 2 2 0x17fd3 0 0x0 0x0 0x303
    ∷ entry 0x14140400 0x0 4 0x20 1 2 0x0 0 0x0 0x0 0x303
    ∷ entry 0x14140500 0x1 16 0x20 2 2 0x17fe3 0 0x0 0x0 0x303
    ∷ entry 0x14140600 0x1 16 0x20 2 2 0x17ff3 0 0x0 0x0 0x303
    ∷ entry 0x14140700 0x0 4 0x20 1 2 0x0 0 0x0 0x0 0x303
    ∷ []

abbrev pub entries_385 : List RegEntry
entries_385 =
    entry 0x14140800 0x1 256 0x20 2 2 0x18003 0 0x0 0x0 0x303
    ∷ entry 0x14140c00 0x1 128 0x20 2 2 0x18103 0 0x0 0x0 0x303
    ∷ entry 0x14140d00 0x1 128 0x20 2 2 0x18183 0 0x0 0x0 0x303
    ∷ entry 0x14140e00 0x1 16 0x20 2 2 0x18203 0 0x0 0x0 0x3
    ∷ entry 0x14140f00 0x2 8 0x20 2 2 0x18213 0 0x0 0x0 0x3
    ∷ entry 0x14190100 0x0 4 0x20 1 2 0x1 0 0x0 0x0 0x303
    ∷ entry 0x14190600 0x0 4 0x20 1 2 0x1 0 0x0 0x0 0x303
    ∷ entry 0x14190700 0x0 4 0x20 1 2 0x0 0 0x0 0x0 0x3
    ∷ entry 0x14190800 0x0 4 0x20 1 2 0x0 0 0x0 0x0 0x303
    ∷ entry 0x14190900 0x0 4 0x20 1 2 0x0 0 0x0 0x0 0x303
    ∷ entry 0x14190a00 0x0 4 0x2020 1 2 0x2 0 0x0 0x0 0x3
    ∷ []
