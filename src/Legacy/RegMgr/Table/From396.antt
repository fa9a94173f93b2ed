-- ===== src/Legacy/RegMgr/Table/From396.antt =====
-- legacy/src/regmgr/mod.rs: the entries of the registry from number 396 on.
use obliteration.Prelude.{List, [], ◌∷◌}
use obliteration.Legacy.RegMgr.Entry.{RegEntry, entry}

abbrev pub entries_396 : List RegEntry
entries_396 =
    entry 0x141e0100 0x1 33 0x20 2 2 0x1821b 0 0x0 0x0 0x303
    ∷ entry 0x141e0200 0x0 4 0x20 1 2 0x2 0 0x0 0x0 0x303
    ∷ entry 0x141e0300 0x1 27 0x20 2 2 0x1823c 0 0x0 0x0 0x303
    ∷ entry 0x141e0400 0x1 65 0x20 2 2 0x18257 0 0x0 0x0 0x303
    ∷ entry 0x141e0500 0x0 4 0x20 1 2 0x0 0 0x0 0x0 0x303
    ∷ entry 0x141e4001 0x0 4 0x20 1 2 0x0 0 0x0 0x0 0x303
    ∷ entry 0x141e6001 0x0 4 0x20 1 2 0x0 0 0x0 0x0 0x303
    ∷ entry 0x141e6002 0x1 256 0x20 2 2 0x18298 0 0x0 0x0 0x303
    ∷ entry 0x141e6003 0x1 128 0x20 2 2 0x18398 0 0x0 0x0 0x303
    ∷ entry 0x141e6004 0x1 128 0x20 2 2 0x18418 0 0x0 0x0 0x303
    ∷ entry 0x141e6005 0x1 16 0x20 2 2 0x18498 0 0x0 0x0 0x303
    ∷ []

abbrev pub entries_407 : List RegEntry
entries_407 =
    entry 0x141e6006 0x1 16 0x20 2 2 0x184a8 0 0x0 0x0 0x303
    ∷ entry 0x141e6007 0x1 16 0x20 2 2 0x184b8 0 0x0 0x0 0x303
    ∷ entry 0x141e6008 0x0 4 0x20 1 2 0x1 0 0x0 0x0 0x303
    ∷ entry 0x141e6009 0x1 16 0x20 2 2 0x184c8 0 0x0 0x0 0x303
    ∷ entry 0x141e600a 0x1 16 0x20 2 2 0x184d8 0 0x0 0x0 0x303
    ∷ entry 0x141e600b 0x1 16 0x20 2 2 0x184e8 0 0x0 0x0 0x3
    ∷ entry 0x141e600c 0x2 8 0x20 2 2 0x184f8 0 0x0 0x0 0x3
    ∷ entry 0x141e8001 0x0 4 0x20 1 2 0x0 0 0x0 0x0 0x303
    ∷ entry 0x141e8002 0x1 256 0x20 2 2 0x18500 0 0x0 0x0 0x303
    ∷ entry 0x141e8003 0x0 4 0x20 1 2 0x1f90 0 0x0 0x0 0x303
    ∷ entry 0x14230100 0x1 33 0x20 2 2 0x18600 0 0x0 0x0 0x3
    ∷ []

abbrev pub entries_418 : List RegEntry
entries_418 =
    entry 0x14230200 0x1 33 0x20 2 2 0x18621 0 0x0 0x0 0x3
    ∷ entry 0x14230300 0x1 33 0x20 2 2 0x18642 0 0x0 0x0 0x3
    ∷ entry 0x14230400 0x1 33 0x20 2 2 0x18663 0 0x0 0x0 0x3
    ∷ entry 0x14230500 0x1 65 0x20 2 2 0x18684 0 0x0 0x0 0x3
    ∷ entry 0x14230600 0x1 65 0x20 2 2 0x186c5 0 0x0 0x0 0x3
    ∷ entry 0x14230700 0x1 27 0x20 2 2 0x18706 0 0x0 0x0 0x3
    ∷ entry 0x14230800 0x1 27 0x20 2 2 0x18721 0 0x0 0x0 0x3
    ∷ entry 0x14234001 0x1 33 0x20 2 2 0x1873c 0 0x0 0x0 0x3
    ∷ entry 0x14234002 0x1 27 0x20 2 2 0x1875d 0 0x0 0x0 0x3
    ∷ entry 0x14234003 0x1 33 0x20 2 2 0x18778 0 0x0 0x0 0x3
    ∷ entry 0x14234004 0x1 27 0x20 2 2 0x18799 0 0x0 0x0 0x3
    ∷ []

abbrev pub entries_429 : List RegEntry
entries_429 =
    entry 0x14234005 0x1 33 0x20 2 2 0x187b4 0 0x0 0x0 0x3
    ∷ entry 0x14234006 0x1 65 0x20 2 2 0x187d5 0 0x0 0x0 0x3
    ∷ entry 0x14234007 0x1 33 0x20 2 2 0x18816 0 0x0 0x0 0x3
    ∷ entry 0x14234008 0x1 65 0x20 2 2 0x18837 0 0x0 0x0 0x3
    ∷ entry 0x14280100 0x0 4 0x20 1 2 0x0 0 0x0 0x0 0x313
    ∷ entry 0x14280200 0x1 256 0x20 2 2 0x18878 0 0x0 0x0 0x313
    ∷ entry 0x14280300 0x0 4 0x20 1 2 0x1f90 0 0x0 0x0 0x313
    ∷ entry 0x142d0100 0x0 4 0x20 1 2 0x0 0 0x0 0x0 0x30
    ∷ entry 0x142d0200 0x1 33 0x20 2 2 0x18978 0 0x0 0x0 0x30
    ∷ entry 0x142d0300 0x1 65 0x20 2 2 0x18999 0 0x0 0x0 0x30
    ∷ entry 0x142d0400 0x0 4 0x20 1 2 0x6 0 0x0 0x0 0x30
    ∷ []

abbrev pub entries_440 : List RegEntry
entries_440 =
    entry 0x142e0100 0x1 65 0x20 2 2 0x189da 0 0x0 0x0 0x100
    ∷ entry 0x14320101 0x1 33 0x20 16 2 0x18a1b 0 0xa 0x8 0x0
    ∷ entry 0x14320102 0x1 27 0x20 16 2 0x18b65 0 0xa 0x8 0x0
    ∷ entry 0x14320103 0x1 65 0x20 16 2 0x18c73 0 0xa 0x8 0x0
    ∷ entry 0x14320104 0x2 8 0x20 16 2 0x18efd 0 0xa 0x8 0x0
    ∷ entry 0x14700000 0x1 16 0x230 2 2 0x18f4d 0 0x0 0x0 0x300
    ∷ entry 0x14710000 0x1 16 0x230 2 2 0x18f5d 0 0x0 0x0 0x300
    ∷ entry 0x14740000 0x1 16 0x230 2 2 0x18f6d 0 0x0 0x0 0x300
    ∷ entry 0x14750000 0x1 16 0x230 2 2 0x18f7d 0 0x0 0x0 0x300
    ∷ entry 0x14760000 0x1 16 0x230 2 2 0x18f8d 0 0x0 0x0 0x300
    ∷ entry 0x14770000 0x0 4 0x230 1 2 0x0 0 0x0 0x0 0x300
    ∷ []

abbrev pub entries_451 : List RegEntry
entries_451 =
    entry 0x14780000 0x1 256 0x230 2 2 0x18f9d 0 0x0 0x0 0x300
    ∷ entry 0x19010000 0x0 4 0x20 1 2 0x0 0 0x0 0x0 0x0
    ∷ entry 0x19600000 0x0 4 0x20 1 2 0x0 0 0x0 0x0 0x0
    ∷ entry 0x19800000 0x1 17 0x8020 2 2 0x1909d 0 0x0 0x0 0x1311
    ∷ entry 0x19810000 0x0 4 0x30 1 2 0x0 0 0x0 0x0 0x1311
    ∷ entry 0x1e010000 0x2 1024 0x10 2 2 0x190ae 0 0x0 0x0 0x31
    ∷ entry 0x1e020000 0x0 4 0x20 1 2 0x0 0 0x0 0x0 0x300
    ∷ entry 0x20010000 0x2 1024 0x4020 2 2 0x194ae 0 0x0 0x0 0x33
    ∷ entry 0x20020100 0x2 1024 0x4020 16 2 0x198ae 0 0xa 0x10 0x33
    ∷ entry 0x20034001 0x2 2000 0x4020 16 2 0x1c0ae 0 0x2 0x8 0x33
    ∷ entry 0x20400000 0x2 1024 0x4020 2 2 0x1d04e 0 0x0 0x0 0x33
    ∷ []

abbrev pub entries_462 : List RegEntry
entries_462 =
    entry 0x20410000 0x0 4 0x1000 1 2 0x0 0 0x0 0x0 0x33
    ∷ entry 0x23010000 0x0 4 0x2020 1 2 0x656e67 0 0x0 0x0 0x300
    ∷ entry 0x23020000 0x0 4 0x2020 1 2 0x656e67 0 0x0 0x0 0x300
    ∷ entry 0x23030000 0x0 4 0x2020 1 2 0x656e67 0 0x0 0x0 0x300
    ∷ entry 0x23040000 0x0 4 0x20 1 2 0x1 0 0x0 0x0 0x300
    ∷ entry 0x23050000 0x0 4 0x20 1 2 0x0 0 0x0 0x0 0x300
    ∷ entry 0x23060000 0x0 4 0x20 1 2 0x0 0 0x0 0x0 0x300
    ∷ entry 0x23070000 0x0 4 0x20 1 2 0x1 0 0x0 0x0 0x300
    ∷ entry 0x23080000 0x0 4 0x20 1 2 0x0 0 0x0 0x0 0x300
    ∷ entry 0x23090000 0x0 4 0x20 1 2 0x0 0 0x0 0x0 0x300
    ∷ entry 0x230a0000 0x0 4 0x2020 1 2 0x656e 0 0x0 0x0 0x300
    ∷ []

abbrev pub entries_473 : List RegEntry
entries_473 =
    entry 0x230b0000 0x0 4 0x2020 1 2 0x656e 0 0x0 0x0 0x300
    ∷ entry 0x230c0000 0x0 4 0x2020 1 2 0x656e 0 0x0 0x0 0x300
    ∷ entry 0x230d0000 0x0 4 0x20 1 2 0x0 0 0x0 0x0 0x0
    ∷ entry 0x230e0000 0x0 4 0x2020 1 2 0x0 0 0x0 0x0 0x0
    ∷ entry 0x230f0000 0x0 4 0x2020 1 2 0x0 0 0x0 0x0 0x0
    ∷ entry 0x28010000 0x0 4 0x20 1 2 0x0 0 0x0 0x0 0x0
    ∷ entry 0x28020000 0x0 4 0x20 1 2 0x0 0 0x0 0x0 0x0
    ∷ entry 0x28030000 0x0 4 0x20 1 2 0x0 0 0x0 0x0 0x0
    ∷ entry 0x29010000 0x0 4 0x20 1 2 0x0 0 0x0 0x0 0x0
    ∷ entry 0x29020000 0x0 4 0x20 1 2 0x0 0 0x0 0x0 0x0
    ∷ entry 0x29030000 0x0 4 0x20 1 2 0x0 0 0x0 0x0 0x0
    ∷ []

abbrev pub entries_484 : List RegEntry
entries_484 =
    entry 0x2a010000 0x2 32 0x20 2 2 0x1d44e 0 0x0 0x0 0x0
    ∷ entry 0x2d010000 0x0 4 0x20 1 2 0x1 0 0x0 0x0 0x0
    ∷ entry 0x320c0000 0x1 43 0x20 2 2 0x1d46e 0 0x0 0x0 0x0
    ∷ entry 0x37040000 0x0 4 0x20 1 2 0x0 0 0x0 0x0 0x0
    ∷ entry 0x37050000 0x0 4 0x20 1 2 0x0 0 0x0 0x0 0x33
    ∷ entry 0x37060000 0x0 4 0x20 1 2 0x0 0 0x0 0x0 0x33
    ∷ entry 0x37090000 0x0 4 0x20 1 2 0x12c 0 0x0 0x0 0x0
    ∷ entry 0x370a0000 0x0 4 0x20 1 2 0x0 0 0x0 0x0 0x300
    ∷ entry 0x3c020000 0x0 4 0x20 1 2 0x1 0 0x0 0x0 0x33
    ∷ entry 0x3c030000 0x0 4 0x20 1 2 0x1 0 0x0 0x0 0x33
    ∷ entry 0x3c040000 0x0 4 0x20 1 2 0x1 0 0x0 0x0 0x33
    ∷ []
