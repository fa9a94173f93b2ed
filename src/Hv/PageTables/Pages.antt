-- ===== src/Hv/PageTables/Pages.antt =====
-- What `map_page` does to the ways through the tables.
use obliteration.Prelude.{
  ℕ, ◌^◌, ◌≡◌, ◌≢◌, ◌<◌, refl, sym, ◌∙◌, ap, Bool, true, false, ◌&&◌, ◌==◌, none, some, arith,
  Bool-cases, inl, inr, Option-cases, subst, done, panic, ◌>>=◌, unwrap_none, ok, err, bind-done,
  and_then_ok-done, ok-injective,
}
use obliteration.Hv.Ram.{Ram}
use obliteration.Hv.PageTables.{
  Table, Tables, Builder, Context, Down, set_page_entry, write_entry, descend, set_page, map_page,
  pml4o, pdpo, pdo, pto, alloc_pdp_table, alloc_pd_table, alloc_page_table_failed,
  duplicated_virtual_addr,
}
use obliteration.Hv.PageTables.Entries.{entry_addr-set_page_entry, set_page_entry-bits}
use obliteration.Hv.PageTables.Links.{
  Flagged, write_entry-Flagged, linked, has, Level, Level-same, linked-write_entry-here,
  linked-write_entry-else, has-write_entry, linked-there,
}
use obliteration.Hv.PageTables.Descend.{Builds, Descended, descend-Descended}
use obliteration.Hv.PageTables.Walks.{
  walk_in, walk, IsContext, IsFlagged, page_of, PathTo, walk_in-path, walk_in-else, steps_same,
}

-- The entry of the page was free, and has been written.
record Put (pt : Tables) (a addr paddr : ℕ) (pt' : Tables) : Type 0 where
  free : linked pt a (pto addr) ≡ none
  now : linked pt' a (pto addr) ≡ some paddr
  rest : (x j : ℕ) → (x == a) && (j == pto addr) ≡ false → linked pt' x j ≡ linked pt x j
  same : (x : ℕ) → has pt' x ≡ has pt x
  flags : Flagged pt → Flagged pt'

write_entry-Put :
    (pt : Tables) (a addr paddr e : ℕ) (table : Table)
    → paddr < 2 ^ 63
    → pt a ≡ some table
    → (table (pto addr) == 0) ≡ true
    → set_page_entry paddr ≡ done e
    → Put pt a addr paddr (write_entry pt a table (pto addr) e)
write_entry-Put pt a addr paddr e table h at empty wrote =
    let (back, used) = entry_addr-set_page_entry paddr e h wrote in
    record {
      free = linked-there pt a table (pto addr) at ∙ ground (arith, empty);
      now = linked-write_entry-here pt a (pto addr) e table at used ∙ ap some back;
      rest = linked-write_entry-else pt a (pto addr) e table at;
      same = has-write_entry pt a (pto addr) e table at;
      flags = write_entry-Flagged pt a (pto addr) e table at (set_page_entry-bits paddr e h wrote);
    }

set_page-none :
    (pt : Tables) (a addr paddr : ℕ) → pt a ≡ none → set_page pt a addr paddr ≡ panic unwrap_none
unfolding set_page
set_page-none pt a addr paddr h = rw (set_page, h) refl

pub set_page-duplicated :
    (pt : Tables) (a addr paddr : ℕ) (table : Table)
    → pt a ≡ some table
    → (table (pto addr) == 0) ≡ false
    → set_page pt a addr paddr ≡ done (err (duplicated_virtual_addr addr))
unfolding set_page
set_page-duplicated pt a addr paddr table h k = rw (set_page, h, k) refl

set_page-empty :
    (pt : Tables) (a addr paddr : ℕ) (table : Table)
    → pt a ≡ some table
    → (table (pto addr) == 0) ≡ true
    → set_page pt a addr paddr
      ≡ (set_page_entry paddr >>= λ e. done (ok (write_entry pt a table (pto addr) e)))
unfolding set_page
set_page-empty pt a addr paddr table h k = rw (set_page, h, k) refl

set_page-Put :
    (pt : Tables) (a addr paddr : ℕ) (pt' : Tables)
    → paddr < 2 ^ 63
    → set_page pt a addr paddr ≡ done (ok pt')
    → Put pt a addr paddr pt'
set_page-Put pt a addr paddr pt' h k = elim (Option-cases (pt a)) [
  | inl gone ↦ cc (k, set_page-none pt a addr paddr gone)
  | inr table ↦ elim (Bool-cases (table.0 (pto addr) == 0)) [
    | inr used ↦ cc (k, set_page-duplicated pt a addr paddr table.0 table.1 used)
    | inl empty ↦
        let (e, wrote, last) =
          bind-done (set_page_entry paddr) _
            (sym (set_page-empty pt a addr paddr table.0 table.1 empty) ∙ k) in
        subst (Put pt a addr paddr) (ok-injective last)
          (write_entry-Put pt a addr paddr e table.0 h table.1 empty wrote)
  ]
]

module _ (commit map : ℕ → ℕ → Bool) (r : Ram) where
  -- The page of `addr` was not mapped. It is now, to `paddr`, and no other page has changed.
  pub record Mapped (cx : Context) (addr paddr : ℕ) (s : Context × Builder) : Type 0 where
    pub free : walk cx addr ≡ none
    pub now : walk s.0 addr ≡ some paddr
    pub others : (v : ℕ) → page_of v ≢ page_of addr → walk s.0 v ≡ walk cx v
    pub tables : IsContext s.0 s.1.next
    pub flags : IsFlagged cx → IsFlagged s.0
    pub builds : Builds r s.1

  module _ (cx : Context) (addr paddr : ℕ) (b : Builder) (d3 d2 d1 : Down) (pt : Tables)
      (c : IsContext cx b.next) (at4 : Descended cx.pml4t cx.pdpt cx.root (pml4o addr) b d3)
      (at3 : Descended d3.lower cx.pdt d3.child (pdpo addr) d3.builder d2)
      (at2 : Descended d2.lower cx.pt d2.child (pdo addr) d2.builder d1)
      (at1 : Put d1.lower d1.child addr paddr pt) where
    path : PathTo d3.upper d2.upper d1.upper cx.root addr d1.child
    path = record {
      p = d3.child;
      d = d2.child;
      link4 = at4.link;
      link3 = at3.link;
      link2 = at2.link;
    }

    level4 : Level d3.upper d2.upper d1.builder.next
    level4 =
        Level-same d3.upper d3.lower d3.upper d2.upper d3.builder.next d1.builder.next (λ x j. refl)
          at3.above (omega (arith, at3.grows, at2.grows)) at4.level

    level3 : Level d2.upper d1.upper d1.builder.next
    level3 =
        Level-same d2.upper d2.lower d2.upper d1.upper d2.builder.next d1.builder.next (λ x j. refl)
          at2.above at2.grows at3.level

    level2 : Level d1.upper pt d1.builder.next
    level2 =
        Level-same d1.upper d1.lower d1.upper pt d1.builder.next d1.builder.next (λ x j. refl)
          at1.same (omega arith) at2.level

    same : (v : ℕ) → walk_in d3.upper d2.upper d1.upper d1.lower cx.root v ≡ walk cx v
    same = steps_same cx addr b d3 d2 d1 at4 at3 at2

    built :
        Builds r d1.builder
        → Mapped cx addr paddr (
          record { root = cx.root; pml4t = d3.upper; pdpt = d2.upper; pdt = d1.upper; pt = pt },
          d1.builder,
        )
    built g = record {
      free =
          sym (same addr)
          ∙ walk_in-path d3.upper d2.upper d1.upper cx.root addr d1.child path d1.lower
          ∙ at1.free;
      now = walk_in-path d3.upper d2.upper d1.upper cx.root addr d1.child path pt ∙ at1.now;
      others = λ v h.
          walk_in-else d3.upper d2.upper d1.upper cx.root addr d1.child path d1.builder.next
            d1.lower pt level4 level3 at2.level at1.rest v h
          ∙ same v;
      tables = record { level4 = level4; level3 = level3; level2 = level2 };
      flags = λ f. record {
        flags4 = at4.flags f.flags4;
        flags3 = at3.flags (at4.flags_below f.flags3);
        flags2 = at2.flags (at3.flags_below f.flags2);
        flags1 = at1.flags (at2.flags_below f.flags1);
      };
      builds = g;
    }

  pub map_page-Mapped :
      (cx : Context) (b : Builder) (addr paddr : ℕ) (s : Context × Builder)
      → Builds r b
      → IsContext cx b.next
      → paddr < 2 ^ 63
      → map_page commit map r cx b addr (done paddr) ≡ done (ok s)
      → Mapped cx addr paddr s
  unfolding map_page
  map_page-Mapped cx b addr paddr s g c below h =
      let (d3, run3, rest3) =
        and_then_ok-done
          (descend commit map r alloc_pdp_table cx.pml4t cx.pdpt cx.root (pml4o addr) b) _ h in
      let (at4, g3) =
        descend-Descended commit map r alloc_pdp_table cx.pml4t cx.pdpt cx.root (pml4o addr) b d3 g
          c.level4 run3 in
      let level3 =
        Level-same cx.pdpt cx.pdt d3.lower cx.pdt b.next d3.builder.next at4.below (λ x. refl)
          at4.grows c.level3 in
      let (d2, run2, rest2) =
        and_then_ok-done
          (descend commit map r alloc_pd_table d3.lower cx.pdt d3.child (pdpo addr) d3.builder) _
          rest3 in
      let (at3, g2) =
        descend-Descended commit map r alloc_pd_table d3.lower cx.pdt d3.child (pdpo addr)
          d3.builder d2 g3 level3 run2 in
      let level2 =
        Level-same cx.pdt cx.pt d2.lower cx.pt b.next d2.builder.next at3.below (λ x. refl)
          (omega (arith, at4.grows, at3.grows)) c.level2 in
      let (d1, run1, rest1) =
        and_then_ok-done
          (descend commit map r alloc_page_table_failed d2.lower cx.pt d2.child (pdo addr)
            d2.builder)
          _ rest2 in
      let (at2, g1) =
        descend-Descended commit map r alloc_page_table_failed d2.lower cx.pt d2.child (pdo addr)
          d2.builder d1 g2 level2 run1 in
      let (pt, put, last) = and_then_ok-done (set_page d1.lower d1.child addr paddr) _ rest1 in
      subst (Mapped cx addr paddr) (ok-injective last) (
        built cx addr paddr b d3 d2 d1 pt c at4 at3 at2
          (set_page-Put d1.lower d1.child addr paddr pt below put) g1)
