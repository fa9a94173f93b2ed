-- ===== src/Legacy/RegMgr/Table/From99.antt =====
-- legacy/src/regmgr/mod.rs: the entries of the registry from number 99 on.
use obliteration.Prelude.{List, [], ◌∷◌}
use obliteration.Legacy.RegMgr.Entry.{RegEntry, entry}

abbrev pub entries_99 : List RegEntry
entries_99 =
    entry 0x5050000 0x0 4 0x20 1 2 0x1 0 0x0 0x0 0x300
    ∷ entry 0x5060000 0x0 4 0x1000 1 2 0x1 0 0x0 0x0 0x55
    ∷ entry 0x5070000 0x0 4 0x20 1 2 0xffffc7c0 0 0x0 0x0 0x55
    ∷ entry 0x5080000 0x0 4 0x1000 1 2 0xffffb9b0 0 0x0 0x0 0x55
    ∷ entry 0x5090000 0x1 30 0x20 2 2 0x3f5 0 0x0 0x0 0x0
    ∷ entry 0x50a0000 0x0 4 0x2020 1 2 0x1 0 0x0 0x0 0x0
    ∷ entry 0x5140000 0x2 8 0x220 2 2 0x413 108 0x0 0x0 0x0
    ∷ entry 0x5150000 0x2 8 0x220 2 2 0x41b 0 0x0 0x0 0x0
    ∷ entry 0x5160000 0x2 8 0x220 2 2 0x423 0 0x0 0x0 0x0
    ∷ entry 0x5170000 0x2 8 0x220 2 2 0x42b 0 0x0 0x0 0x0
    ∷ entry 0x5180000 0x2 8 0x220 2 2 0x433 424 0x0 0x0 0x0
    ∷ []

abbrev pub entries_110 : List RegEntry
entries_110 =
    entry 0x7010000 0x0 4 0x20 1 2 0x1180c69e 0 0x0 0x0 0x0
    ∷ entry 0x7020000 0x0 4 0x10 1 2 0x1180c69e 0 0x0 0x0 0x0
    ∷ entry 0x7030000 0x0 4 0x1000 1 2 0x0 0 0x0 0x0 0x0
    ∷ entry 0x7040000 0x0 4 0x20 1 2 0x0 0 0x0 0x0 0x0
    ∷ entry 0x7050000 0x0 4 0x10 1 2 0x26d3ffde 0 0x0 0x0 0x0
    ∷ entry 0x7060000 0x0 4 0x10 1 2 0x2fffffff 0 0x0 0x0 0x0
    ∷ entry 0x7070000 0x0 4 0x10 1 2 0x0 0 0x0 0x0 0x0
    ∷ entry 0x7800100 0x0 4 0x10 16 2 0x43b 0 0x10 0x10 0x0
    ∷ entry 0x7800200 0x1 17 0x10 16 2 0x47b 0 0x10 0x10 0x300
    ∷ entry 0x7800300 0x1 16 0x20 16 2 0x58b 0 0x10 0x10 0x0
    ∷ entry 0x7800500 0x2 8 0x10 16 2 0x68b 0 0x10 0x10 0x0
    ∷ []

abbrev pub entries_121 : List RegEntry
entries_121 =
    entry 0x7800600 0x1 65 0x20 16 2 0x70b 0 0x10 0x10 0x0
    ∷ entry 0x7800700 0x0 4 0x20 16 2 0xb1b 0 0x10 0x10 0x300
    ∷ entry 0x7800800 0x0 4 0x10 16 2 0xb5b 0 0x10 0x10 0x0
    ∷ entry 0x7800900 0x0 4 0x10 16 2 0xb9b 0 0x10 0x10 0x0
    ∷ entry 0x7800a00 0x0 4 0x20 16 2 0xbdb 0 0x10 0x10 0x0
    ∷ entry 0x7800b00 0x0 4 0x20 16 2 0xc1b 0 0x10 0x10 0x0
    ∷ entry 0x7800c00 0x0 4 0x20 16 2 0xc5b 0 0x10 0x10 0x0
    ∷ entry 0x7800d00 0x0 4 0x20 16 2 0xc9b 0 0x10 0x10 0x0
    ∷ entry 0x7800e00 0x0 4 0x10 16 2 0xcdb 0 0x10 0x10 0x0
    ∷ entry 0x7800f00 0x0 4 0x10 16 2 0xd1b 0 0x10 0x10 0x0
    ∷ entry 0x7801000 0x0 4 0x20 16 2 0xd5b 0 0x10 0x10 0x300
    ∷ []

abbrev pub entries_132 : List RegEntry
entries_132 =
    entry 0x7801100 0x2 8 0x20 16 2 0xd9b 0 0x10 0x10 0x0
    ∷ entry 0x7805c01 0x0 4 0x20 16 2 0xe1b 0 0x10 0x10 0x311
    ∷ entry 0x7805c02 0x0 4 0x20 16 2 0xe5b 0 0x10 0x10 0x310
    ∷ entry 0x7805c03 0x0 4 0x20 16 2 0xe9b 0 0x10 0x10 0x310
    ∷ entry 0x7805c04 0x0 4 0x20 16 2 0xedb 0 0x10 0x10 0x310
    ∷ entry 0x7805c05 0x0 4 0x20 16 2 0xf1b 0 0x10 0x10 0x300
    ∷ entry 0x7805c06 0x0 4 0x20 16 2 0xf5b 0 0x10 0x10 0x300
    ∷ entry 0x7805c07 0x0 4 0x20 16 2 0xf9b 0 0x10 0x10 0x311
    ∷ entry 0x7806401 0x0 4 0x20 16 2 0xfdb 0 0x10 0x10 0x0
    ∷ entry 0x7806402 0x0 4 0x10 16 2 0x101b 0 0x10 0x10 0x0
    ∷ entry 0x7806403 0x0 4 0x20 16 2 0x105b 0 0x10 0x10 0x0
    ∷ []

abbrev pub entries_143 : List RegEntry
entries_143 =
    entry 0x7806c01 0x0 4 0x20 16 2 0x109b 0 0x10 0x10 0x355
    ∷ entry 0x7806c02 0x0 4 0x20 16 2 0x10db 0 0x10 0x10 0x0
    ∷ entry 0x7806c03 0x2 16 0x20 16 2 0x111b 0 0x10 0x10 0x0
    ∷ entry 0x7807801 0x0 4 0x20 16 2 0x121b 0 0x10 0x10 0x0
    ∷ entry 0x7807c01 0x0 4 0x10 16 2 0x125b 0 0x10 0x10 0x0
    ∷ entry 0x7807c02 0x0 4 0x10 16 2 0x129b 0 0x10 0x10 0x0
    ∷ entry 0x7807c03 0x0 4 0x20 16 2 0x12db 0 0x10 0x10 0x0
    ∷ entry 0x7808001 0x0 4 0x2020 16 2 0x131b 0 0x10 0x10 0x0
    ∷ entry 0x7808002 0x0 4 0x2020 16 2 0x135b 0 0x10 0x10 0x0
    ∷ entry 0x7808003 0x0 4 0x2020 16 2 0x139b 0 0x10 0x10 0x0
    ∷ entry 0x7808004 0x0 4 0x2020 16 2 0x13db 0 0x10 0x10 0x0
    ∷ []

abbrev pub entries_154 : List RegEntry
entries_154 =
    entry 0x7808005 0x0 4 0x2020 16 2 0x141b 0 0x10 0x10 0x0
    ∷ entry 0x7808006 0x0 4 0x2020 16 2 0x145b 0 0x10 0x10 0x0
    ∷ entry 0x7808007 0x0 4 0x2020 16 2 0x149b 0 0x10 0x10 0x0
    ∷ entry 0x7808008 0x0 4 0x2020 16 2 0x14db 0 0x10 0x10 0x0
    ∷ entry 0x7808009 0x0 4 0x2020 16 2 0x151b 0 0x10 0x10 0x0
    ∷ entry 0x780800a 0x0 4 0x2020 16 2 0x155b 0 0x10 0x10 0x0
    ∷ entry 0x780800b 0x0 4 0x2020 16 2 0x159b 0 0x10 0x10 0x0
    ∷ entry 0x780800c 0x0 4 0x2020 16 2 0x15db 0 0x10 0x10 0x0
    ∷ entry 0x780800d 0x0 4 0x2020 16 2 0x161b 0 0x10 0x10 0x0
    ∷ entry 0x780800e 0x0 4 0x2020 16 2 0x165b 0 0x10 0x10 0x0
    ∷ entry 0x780800f 0x0 4 0x2020 16 2 0x169b 0 0x10 0x10 0x0
    ∷ []

abbrev pub entries_165 : List RegEntry
entries_165 =
    entry 0x7808010 0x0 4 0x2020 16 2 0x16db 0 0x10 0x10 0x0
    ∷ entry 0x7808011 0x0 4 0x2020 16 2 0x171b 0 0x10 0x10 0x0
    ∷ entry 0x7808012 0x0 4 0x2020 16 2 0x175b 0 0x10 0x10 0x0
    ∷ entry 0x7808013 0x0 4 0x2020 16 2 0x179b 0 0x10 0x10 0x0
    ∷ entry 0x7808014 0x0 4 0x2020 16 2 0x17db 0 0x10 0x10 0x0
    ∷ entry 0x7808015 0x0 4 0x2020 16 2 0x181b 0 0x10 0x10 0x0
    ∷ entry 0x7808016 0x0 4 0x2020 16 2 0x185b 0 0x10 0x10 0x0
    ∷ entry 0x7808017 0x0 4 0x2020 16 2 0x189b 0 0x10 0x10 0x0
    ∷ entry 0x7808018 0x0 4 0x2020 16 2 0x18db 0 0x10 0x10 0x0
    ∷ entry 0x7808019 0x0 4 0x2020 16 2 0x191b 0 0x10 0x10 0x0
    ∷ entry 0x780801a 0x0 4 0x2020 16 2 0x195b 0 0x10 0x10 0x0
    ∷ []

abbrev pub entries_176 : List RegEntry
entries_176 =
    entry 0x780801b 0x0 4 0x2020 16 2 0x199b 0 0x10 0x10 0x0
    ∷ entry 0x780801c 0x0 4 0x2020 16 2 0x19db 0 0x10 0x10 0x0
    ∷ entry 0x780801d 0x0 4 0x2020 16 2 0x1a1b 0 0x10 0x10 0x0
    ∷ entry 0x780801e 0x0 4 0x2020 16 2 0x1a5b 0 0x10 0x10 0x0
    ∷ entry 0x780801f 0x0 4 0x2020 16 2 0x1a9b 0 0x10 0x10 0x0
    ∷ entry 0x7808080 0x0 4 0x20 16 2 0x1adb 0 0x10 0x10 0x300
    ∷ entry 0x7808081 0x0 4 0x20 16 2 0x1b1b 0 0x10 0x10 0x0
    ∷ entry 0x7808082 0x0 4 0x20 16 2 0x1b5b 0 0x10 0x10 0x300
    ∷ entry 0x7808083 0x0 4 0x20 16 2 0x1b9b 0 0x10 0x10 0x0
    ∷ entry 0x7808084 0x0 4 0x20 16 2 0x1bdb 0 0x10 0x10 0x0
    ∷ entry 0x7808085 0x0 4 0x20 16 2 0x1c1b 0 0x10 0x10 0x0
    ∷ []

abbrev pub entries_187 : List RegEntry
entries_187 =
    entry 0x7809001 0x0 4 0x20 16 2 0x1c5b 0 0x10 0x10 0x300
    ∷ entry 0x7809002 0x0 4 0x2020 16 2 0x1c9b 0 0x10 0x10 0x300
    ∷ entry 0x7809003 0x0 4 0x20 16 2 0x1cdb 0 0x10 0x10 0x300
    ∷ entry 0x7809004 0x0 4 0x2020 16 2 0x1d1b 0 0x10 0x10 0x300
    ∷ entry 0x7809005 0x0 4 0x20 16 2 0x1d5b 0 0x10 0x10 0x300
    ∷ entry 0x7809006 0x0 4 0x20 16 2 0x1d9b 0 0x10 0x10 0x300
    ∷ entry 0x780a001 0x0 4 0x20 16 2 0x1ddb 0 0x10 0x10 0x0
    ∷ entry 0x780a002 0x0 4 0x20 16 2 0x1e1b 0 0x10 0x10 0x0
    ∷ entry 0x780a003 0x0 4 0x20 16 2 0x1e5b 0 0x10 0x10 0x0
    ∷ entry 0x780a004 0x0 4 0x20 16 2 0x1e9b 0 0x10 0x10 0x0
    ∷ entry 0x780a005 0x0 4 0x20 16 2 0x1edb 0 0x10 0x10 0x355
    ∷ []
