-- ===== src/Legacy/RegMgr/Table/From198.antt =====
-- legacy/src/regmgr/mod.rs: the entries of the registry from number 198 on.
use obliteration.Prelude.{List, [], ◌∷◌}
use obliteration.Legacy.RegMgr.Entry.{RegEntry, entry}

abbrev pub entries_198 : List RegEntry
entries_198 =
    entry 0x780a006 0x0 4 0x20 16 2 0x1f1b 0 0x10 0x10 0x0
    ∷ entry 0x780a007 0x0 4 0x20 16 2 0x1f5b 0 0x10 0x10 0x300
    ∷ entry 0x780a008 0x0 4 0x20 16 2 0x1f9b 0 0x10 0x10 0x300
    ∷ entry 0x780a009 0x0 4 0x20 16 2 0x1fdb 0 0x10 0x10 0x300
    ∷ entry 0x780a00a 0x0 4 0x20 16 2 0x201b 0 0x10 0x10 0x303
    ∷ entry 0x780a00b 0x0 4 0x20 16 2 0x205b 0 0x10 0x10 0x303
    ∷ entry 0x780a00c 0x0 4 0x20 16 2 0x209b 0 0x10 0x10 0x0
    ∷ entry 0x780a00d 0x0 4 0x20 16 2 0x20db 0 0x10 0x10 0x0
    ∷ entry 0x780a00e 0x0 4 0x20 16 2 0x211b 0 0x10 0x10 0x0
    ∷ entry 0x780a00f 0x0 4 0x20 16 2 0x215b 0 0x10 0x10 0x300
    ∷ entry 0x780b003 0x0 4 0x20 16 2 0x219b 0 0x10 0x10 0x33
    ∷ []

abbrev pub entries_209 : List RegEntry
entries_209 =
    entry 0x780b004 0x0 4 0x10 16 2 0x21db 0 0x10 0x10 0x0
    ∷ entry 0x780b007 0x1 17 0x10 16 2 0x221b 0 0x10 0x10 0x0
    ∷ entry 0x780b008 0x1 37 0x4010 16 2 0x232b 0 0x10 0x10 0x0
    ∷ entry 0x780b009 0x0 4 0x10 16 2 0x257b 0 0x10 0x10 0x0
    ∷ entry 0x780b00a 0x0 4 0x4010 16 2 0x25bb 0 0x10 0x10 0x0
    ∷ entry 0x780b00b 0x0 4 0x10 16 2 0x25fb 0 0x10 0x10 0x0
    ∷ entry 0x780b00c 0x1 17 0x10 16 2 0x263b 0 0x10 0x10 0x0
    ∷ entry 0x780b00d 0x1 65 0x10 16 2 0x274b 0 0x10 0x10 0x0
    ∷ entry 0x780b00e 0x1 3 0x10 16 2 0x2b5b 0 0x10 0x10 0x0
    ∷ entry 0x780b00f 0x1 6 0x10 16 2 0x2b8b 0 0x10 0x10 0x0
    ∷ entry 0x780b010 0x1 36 0x10 16 2 0x2beb 0 0x10 0x10 0x0
    ∷ []

abbrev pub entries_220 : List RegEntry
entries_220 =
    entry 0x780b011 0x1 11 0x10 16 2 0x2e2b 0 0x10 0x10 0x0
    ∷ entry 0x780b012 0x0 4 0x10 16 2 0x2edb 0 0x10 0x10 0x0
    ∷ entry 0x780b013 0x1 65 0x10 16 2 0x2f1b 0 0x10 0x10 0x0
    ∷ entry 0x780b801 0x0 4 0x4020 16 2 0x332b 0 0x10 0x10 0x10
    ∷ entry 0x780b802 0x0 4 0x4020 16 2 0x336b 0 0x10 0x10 0x10
    ∷ entry 0x780b803 0x0 4 0x4020 16 2 0x33ab 0 0x10 0x10 0x10
    ∷ entry 0x780b804 0x0 4 0x4020 16 2 0x33eb 0 0x10 0x10 0x10
    ∷ entry 0x780b805 0x0 4 0x4020 16 2 0x342b 0 0x10 0x10 0x10
    ∷ entry 0x780b806 0x2 8 0x4020 16 2 0x346b 0 0x10 0x10 0x10
    ∷ entry 0x780b807 0x0 4 0x4020 16 2 0x34eb 0 0x10 0x10 0x10
    ∷ entry 0x780b808 0x0 4 0x4020 16 2 0x352b 0 0x10 0x10 0x10
    ∷ []

abbrev pub entries_231 : List RegEntry
entries_231 =
    entry 0x780b809 0x0 4 0x4020 16 2 0x356b 0 0x10 0x10 0x10
    ∷ entry 0x780b80a 0x0 4 0x4020 16 2 0x35ab 0 0x10 0x10 0x10
    ∷ entry 0x780b80b 0x0 4 0x4020 16 2 0x35eb 0 0x10 0x10 0x10
    ∷ entry 0x780b80c 0x0 4 0x4020 16 2 0x362b 0 0x10 0x10 0x10
    ∷ entry 0x780b80d 0x0 4 0x4020 16 2 0x366b 0 0x10 0x10 0x10
    ∷ entry 0x780b80e 0x0 4 0x4020 16 2 0x36ab 0 0x10 0x10 0x10
    ∷ entry 0x780b80f 0x0 4 0x4020 16 2 0x36eb 0 0x10 0x10 0x10
    ∷ entry 0x780b810 0x0 4 0x4020 16 2 0x372b 0 0x10 0x10 0x10
    ∷ entry 0x780b811 0x0 4 0x4020 16 2 0x376b 0 0x10 0x10 0x10
    ∷ entry 0x780b812 0x0 4 0x4020 16 2 0x37ab 0 0x10 0x10 0x10
    ∷ entry 0x780b813 0x0 4 0x4020 16 2 0x37eb 0 0x10 0x10 0x10
    ∷ []

abbrev pub entries_242 : List RegEntry
entries_242 =
    entry 0x780b814 0x0 4 0x4020 16 2 0x382b 0 0x10 0x10 0x10
    ∷ entry 0x780b815 0x0 4 0x4020 16 2 0x386b 0 0x10 0x10 0x10
    ∷ entry 0x780b816 0x0 4 0x4020 16 2 0x38ab 0 0x10 0x10 0x10
    ∷ entry 0x780b817 0x0 4 0x4020 16 2 0x38eb 0 0x10 0x10 0x10
    ∷ entry 0x780b818 0x0 4 0x4020 16 2 0x392b 0 0x10 0x10 0x10
    ∷ entry 0x780b819 0x0 4 0x4020 16 2 0x396b 0 0x10 0x10 0x10
    ∷ entry 0x780b81a 0x0 4 0x4020 16 2 0x39ab 0 0x10 0x10 0x10
    ∷ entry 0x780b81b 0x0 4 0x4020 16 2 0x39eb 0 0x10 0x10 0x10
    ∷ entry 0x780bc01 0x0 4 0x20 16 2 0x3a2b 0 0x10 0x10 0x0
    ∷ entry 0x780bc02 0x0 4 0x20 16 2 0x3a6b 0 0x10 0x10 0x0
    ∷ entry 0x780bc03 0x0 4 0x20 16 2 0x3aab 0 0x10 0x10 0x0
    ∷ []

abbrev pub entries_253 : List RegEntry
entries_253 =
    entry 0x780bd01 0x0 4 0x20 16 2 0x3aeb 0 0x10 0x10 0x0
    ∷ entry 0x780bd02 0x0 4 0x20 16 2 0x3b2b 0 0x10 0x10 0x0
    ∷ entry 0x780bd03 0x0 4 0x20 16 2 0x3b6b 0 0x10 0x10 0x0
    ∷ entry 0x780c001 0x0 4 0x20 16 2 0x3bab 0 0x10 0x10 0x0
    ∷ entry 0x780c002 0x0 4 0x20 16 2 0x3beb 0 0x10 0x10 0x0
    ∷ entry 0x780c003 0x0 4 0x20 16 2 0x3c2b 0 0x10 0x10 0x0
    ∷ entry 0x780c004 0x0 4 0x20 16 2 0x3c6b 0 0x10 0x10 0x0
    ∷ entry 0x780c005 0x0 4 0x20 16 2 0x3cab 0 0x10 0x10 0x0
    ∷ entry 0x780c006 0x0 4 0x20 16 2 0x3ceb 0 0x10 0x10 0x0
    ∷ entry 0x780c007 0x1 32 0x20 16 2 0x3d2b 0 0x10 0x10 0x0
    ∷ entry 0x780c008 0x0 4 0x20 16 2 0x3f2b 0 0x10 0x10 0x0
    ∷ []

abbrev pub entries_264 : List RegEntry
entries_264 =
    entry 0x780c009 0x0 4 0x20 16 2 0x3f6b 0 0x10 0x10 0x0
    ∷ entry 0x780c00a 0x0 4 0x20 16 2 0x3fab 0 0x10 0x10 0x300
    ∷ entry 0x780c00b 0x1 41 0x20 16 2 0x3feb 0 0x10 0x10 0x0
    ∷ entry 0x780c00c 0x1 41 0x20 16 2 0x427b 0 0x10 0x10 0x0
    ∷ entry 0x780c00d 0x0 4 0x20 16 2 0x450b 0 0x10 0x10 0x0
    ∷ entry 0x780c00e 0x1 128 0x20 16 2 0x454b 0 0x10 0x10 0x0
    ∷ entry 0x780c010 0x0 4 0x20 16 2 0x4d4b 0 0x10 0x10 0x0
    ∷ entry 0x780c011 0x0 4 0x20 16 2 0x4d8b 0 0x10 0x10 0x0
    ∷ entry 0x780c012 0x0 4 0x20 16 2 0x4dcb 0 0x10 0x10 0x0
    ∷ entry 0x780c013 0x0 4 0x20 16 2 0x4e0b 0 0x10 0x10 0x0
    ∷ entry 0x780c014 0x1 32 0x20 16 2 0x4e4b 0 0x10 0x10 0x0
    ∷ []

abbrev pub entries_275 : List RegEntry
entries_275 =
    entry 0x780c015 0x0 4 0x20 16 2 0x504b 0 0x10 0x10 0x0
    ∷ entry 0x780c016 0x0 4 0x20 16 2 0x508b 0 0x10 0x10 0x0
    ∷ entry 0x780c017 0x0 4 0x20 16 2 0x50cb 0 0x10 0x10 0x0
    ∷ entry 0x780c018 0x0 4 0x20 16 2 0x510b 0 0x10 0x10 0x0
    ∷ entry 0x780c019 0x0 4 0x20 16 2 0x514b 0 0x10 0x10 0x0
    ∷ entry 0x780c01a 0x0 4 0x20 16 2 0x518b 0 0x10 0x10 0x0
    ∷ entry 0x780c01b 0x0 4 0x20 16 2 0x51cb 0 0x10 0x10 0x0
    ∷ entry 0x780c01c 0x0 4 0x20 16 2 0x520b 0 0x10 0x10 0x0
    ∷ entry 0x780c01d 0x0 4 0x20 16 2 0x524b 0 0x10 0x10 0x0
    ∷ entry 0x780c01e 0x0 4 0x20 16 2 0x528b 0 0x10 0x10 0x0
    ∷ entry 0x780c01f 0x0 4 0x20 16 2 0x52cb 0 0x10 0x10 0x0
    ∷ []

abbrev pub entries_286 : List RegEntry
entries_286 =
    entry 0x780c020 0x0 4 0x20 16 2 0x530b 0 0x10 0x10 0x0
    ∷ entry 0x780c021 0x0 4 0x20 16 2 0x534b 0 0x10 0x10 0x0
    ∷ entry 0x780c022 0x0 4 0x20 16 2 0x538b 0 0x10 0x10 0x0
    ∷ entry 0x780c023 0x0 4 0x20 16 2 0x53cb 0 0x10 0x10 0x0
    ∷ entry 0x780c024 0x2 8 0x20 16 2 0x540b 0 0x10 0x10 0x0
    ∷ entry 0x780c025 0x0 4 0x20 16 2 0x548b 0 0x10 0x10 0x0
    ∷ entry 0x780c026 0x0 4 0x20 16 2 0x54cb 0 0x10 0x10 0x0
    ∷ entry 0x780c027 0x0 4 0x20 16 2 0x550b 0 0x10 0x10 0x0
    ∷ entry 0x780c028 0x0 4 0x20 16 2 0x554b 0 0x10 0x10 0x0
    ∷ entry 0x780c029 0x0 4 0x20 16 2 0x558b 0 0x10 0x10 0x0
    ∷ entry 0x780c02a 0x0 4 0x20 16 2 0x55cb 0 0x10 0x10 0x0
    ∷ []
