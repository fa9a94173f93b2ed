-- ===== src/Legacy/RegMgr/Table.antt =====
-- legacy/src/regmgr/mod.rs: the table of all entries of the registry.
mod From0
mod From99
mod From198
mod From297
mod From396
mod From495
use obliteration.Prelude.{List, [], ◌++◌}
use obliteration.Legacy.RegMgr.Entry.{RegEntry}
use obliteration.Legacy.RegMgr.Table.From0.{
  entries_0, entries_11, entries_22, entries_33, entries_44, entries_55, entries_66, entries_77,
  entries_88,
}
use obliteration.Legacy.RegMgr.Table.From99.{
  entries_99, entries_110, entries_121, entries_132, entries_143, entries_154, entries_165,
  entries_176, entries_187,
}
use obliteration.Legacy.RegMgr.Table.From198.{
  entries_198, entries_209, entries_220, entries_231, entries_242, entries_253, entries_264,
  entries_275, entries_286,
}
use obliteration.Legacy.RegMgr.Table.From297.{
  entries_297, entries_308, entries_319, entries_330, entries_341, entries_352, entries_363,
  entries_374, entries_385,
}
use obliteration.Legacy.RegMgr.Table.From396.{
  entries_396, entries_407, entries_418, entries_429, entries_440, entries_451, entries_462,
  entries_473, entries_484,
}
use obliteration.Legacy.RegMgr.Table.From495.{
  entries_495, entries_506, entries_517, entries_528, entries_539, entries_550,
}

-- `ENTRIES`.
abbrev pub entries : List RegEntry
entries =
    entries_0
    ++ (entries_11
        ++ (entries_22
            ++ (entries_33
                ++ (entries_44
                    ++ (entries_55
                        ++ (entries_66
                            ++ (entries_77
                                ++ (entries_88
                                    ++ (entries_99
                                        ++ (entries_110
                                            ++ (entries_121
                                                ++ (entries_132
                                                    ++ (entries_143
                                                        ++ (entries_154
                                                            ++ (entries_165
                                                            ++ (entries_176
                                                            ++ (entries_187
                                                            ++ (entries_198
                                                            ++ (entries_209
                                                            ++ (entries_220
                                                            ++ (entries_231
                                                            ++ (entries_242
                                                            ++ (entries_253
                                                            ++ (entries_264
                                                            ++ (entries_275
                                                            ++ (entries_286
                                                            ++ (entries_297
                                                            ++ (entries_308
                                                            ++ (entries_319
                                                            ++ (entries_330
                                                            ++ (entries_341
                                                            ++ (entries_352
                                                            ++ (entries_363
                                                            ++ (entries_374
                                                            ++ (entries_385
                                                            ++ (entries_396
                                                            ++ (entries_407
                                                            ++ (entries_418
                                                            ++ (entries_429
                                                            ++ (entries_440
                                                            ++ (entries_451
                                                            ++ (entries_462
                                                            ++ (entries_473
                                                            ++ (entries_484
                                                            ++ (entries_495
                                                            ++ (entries_506
                                                            ++ (entries_517
                                                            ++ (entries_528
                                                            ++ (entries_539 ++ entries_550))))))))))
                                                            )))))))))))))))))))))))))))))))))))))))
