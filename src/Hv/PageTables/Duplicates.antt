-- ===== src/Hv/PageTables/Duplicates.antt =====
-- What `map_page` says of a page that is mapped.
use obliteration.Prelude.{
  ℕ, ◌≡◌, refl, ◌∙◌, ap, Bool, false, ◌==◌, Option, none, some, arith, Bool-cases, Option-cases,
  inl, inr, done, ok, err,
}
use obliteration.Hv.Ram.{Ram, RamError}
use obliteration.Hv.PageTables.{
  Table, Tables, Builder, BuilderError, Context, entry_addr, descend, map_page, pml4o, pdpo, pdo,
  pto, alloc_pdp_table, alloc_pd_table, alloc_page_table_failed, duplicated_virtual_addr,
}
use obliteration.Hv.PageTables.Links.{
  linked, has, bind, Level, linked-there, linked-absent, has-some,
}
use obliteration.Hv.PageTables.Descend.{descend-there}
use obliteration.Hv.PageTables.Walks.{walk_in, walk, IsContext}
use obliteration.Hv.PageTables.Pages.{set_page-duplicated}

record Used (tables : Tables) (a i c : ℕ) : Type 0 where
  table : Table
  at : tables a ≡ some table
  used : (table i == 0) ≡ false
  addr : entry_addr (table i) ≡ c

linked-Used : (tables : Tables) (a i c : ℕ) → linked tables a i ≡ some c → Used tables a i c
linked-Used tables a i c h = elim (Option-cases (tables a)) [
  | inl gone ↦ cc (h, linked-absent tables a i gone)
  | inr t ↦ elim (Bool-cases (t.0 i == 0)) [
    | inl empty ↦ ground (arith, h, linked-there tables a t.0 i t.1, empty)
    | inr used ↦ record {
      table = t.0;
      at = t.1;
      used = used;
      addr = ground (arith, h, linked-there tables a t.0 i t.1, used);
    }
  ]
]

bind-some :
    (o : Option ℕ) (f : ℕ → Option ℕ) (q : ℕ)
    → bind o f ≡ some q
    → (c : ℕ) × (o ≡ some c) × (f c ≡ some q)
bind-some none f q h = cc h
bind-some (some c) f q h = (c, refl, h)

module _ (commit map : ℕ → ℕ → Bool) (r : Ram) where
  descend-linked :
      (failed : RamError → BuilderError) (upper lower : Tables) (a i c : ℕ) (b : Builder)
      → linked upper a i ≡ some c
      → Level upper lower b.next
      → descend commit map r failed upper lower a i b
        ≡ done (ok (record { child = c; upper = upper; lower = lower; builder = b }))
  descend-linked failed upper lower a i c b h l =
      let u = linked-Used upper a i c h in
      let (there, at) =
        has-some lower (entry_addr (u.table i)) (ap (has lower) u.addr ∙ l.whole a i c h) in
      descend-there commit map r failed upper lower a i b u.table there u.at u.used at
      ∙ ap (λ t. done (ok (record { child = t; upper = upper; lower = lower; builder = b }))) u.addr

  -- `map_page` for an address whose page is mapped, by entries that are not 0, is the error that names the
  -- address, with tables in which each entry in use stands for a table of its own.
  pub map_page-duplicated :
      (cx : Context) (b : Builder) (addr paddr q : ℕ)
      → IsContext cx b.next
      → walk cx addr ≡ some q
      → map_page commit map r cx b addr (done paddr) ≡ done (err (duplicated_virtual_addr addr))
  unfolding map_page walk_in
  map_page-duplicated cx b addr paddr q c h =
      let (p, h4, rest4) = bind-some (linked cx.pml4t cx.root (pml4o addr)) _ q h in
      let (d, h3, rest3) = bind-some (linked cx.pdpt p (pdpo addr)) _ q rest4 in
      let (t, h2, h1) = bind-some (linked cx.pdt d (pdo addr)) _ q rest3 in
      let u = linked-Used cx.pt t (pto addr) q h1 in
      rw
        (
          descend-linked alloc_pdp_table cx.pml4t cx.pdpt cx.root (pml4o addr) p b h4 c.level4,
          descend-linked alloc_pd_table cx.pdpt cx.pdt p (pdpo addr) d b h3 c.level3,
          descend-linked alloc_page_table_failed cx.pdt cx.pt d (pdo addr) t b h2 c.level2,
          set_page-duplicated cx.pt t addr paddr u.table u.at u.used,
        )
        refl
