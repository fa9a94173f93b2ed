-- ===== src/Hv/PageTables/Descend.antt =====
-- What `descend` leaves behind: the entry is in use, and no walk has changed.
use obliteration.Prelude.{
  ℕ, ◌+◌, ◌-◌, ◌%◌, ◌^◌, ◌≡◌, ◌⊎◌, ◌<◌, ◌≤◌, refl, sym, ◌∙◌, ap, Bool, true, false, ◌&&◌, ◌==◌,
  Option, none, some, arith, Bool-cases, inl, inr, Option-cases, subst, Flow, done, panic, ◌>>=◌,
  unwrap_none, explicit, Result, ok, and_then_ok, map_err, bind-done, assert-done, and_then_ok-done,
  map_err-done, ok-injective,
}
use native.Mathlib.Nat.{div-add-mod, mod-lt}
use obliteration.Hv.Ram.{Ram, RamError, block_size, alloc}
use obliteration.Hv.Ram.Blocks.{Ordered}
use obliteration.Hv.Ram.Allocs.{alloc-Allocated, alloc-fits}
use obliteration.Hv.PageTables.{
  Table, Tables, entry_addr, write_entry, insert_table, Builder, BuilderError, Down, set_page_entry,
  alloc_page_table, descend, next_multiple,
}
use obliteration.Hv.PageTables.Entries.{entry_addr-set_page_entry, set_page_entry-bits}
use obliteration.Hv.PageTables.Links.{
  Flagged, write_entry-Flagged, insert_table-Flagged, linked, has, bind, Level,
  linked-write_entry-here, linked-write_entry-else, has-write_entry, linked-insert_table,
  has-insert_table-here, has-insert_table-else, linked-absent, linked-there,
}

pub bind-same :
    (o p : Option ℕ) (f g : ℕ → Option ℕ) → o ≡ p → ((c : ℕ) → f c ≡ g c) → bind o f ≡ bind p g
bind-same none p f g h k = ap (λ t. bind t g) h
bind-same (some a) p f g h k = k a ∙ ap (λ t. bind t g) h

pub record Descended (upper lower : Tables) (a i : ℕ) (b : Builder) (d : Down) : Type 0 where
  pub link : linked d.upper a i ≡ some d.child
  pub walks :
      (x j : ℕ) (f : ℕ → Option ℕ)
      → ((c : ℕ) → ((k : ℕ) → linked lower c k ≡ none) → f c ≡ none)
      → bind (linked d.upper x j) f ≡ bind (linked upper x j) f
  pub below : (x j : ℕ) → linked d.lower x j ≡ linked lower x j
  pub above : (x : ℕ) → has d.upper x ≡ has upper x
  pub level : Level d.upper d.lower d.builder.next
  pub grows : b.next ≤ d.builder.next
  pub flags : Flagged upper → Flagged d.upper
  pub flags_below : Flagged lower → Flagged d.lower

module _ (upper lower : Tables) (a i : ℕ) (b : Builder) where
  -- The entry was in use.
  there-Descended :
      (c : ℕ)
      → linked upper a i ≡ some c
      → Level upper lower b.next
      → Descended upper lower a i b
          (record { child = c; upper = upper; lower = lower; builder = b })
  there-Descended c h l = record {
    link = h;
    walks = λ x j f k. refl;
    below = λ x j. refl;
    above = λ x. refl;
    level = l;
    grows = omega arith;
    flags = λ t. t;
    flags_below = λ t. t;
  }

  -- A new table, at the address that the builder has got to.
  module _ (table : Table) (e : ℕ) (after : Builder) (at : upper a ≡ some table)
      (empty : (table i == 0) ≡ true) (used : (e == 0) ≡ false) (bits : e % 4 ≡ 3)
      (addr : entry_addr e ≡ b.next) (more : b.next < after.next) (vacant : lower b.next ≡ none)
      (l : Level upper lower b.next) where
    abbrev upper' : Tables
    upper' = write_entry upper a table i e

    abbrev lower' : Tables
    lower' = insert_table lower b.next

    link' : linked upper' a i ≡ some b.next
    link' = linked-write_entry-here upper a i e table at used ∙ ap some addr

    else' : (x j : ℕ) → (x == a) && (j == i) ≡ false → linked upper' x j ≡ linked upper x j
    else' = linked-write_entry-else upper a i e table at

    before : linked upper a i ≡ none
    before = linked-there upper a table i at ∙ ground (arith, empty)

    at_entry : (x j : ℕ) → (x == a) && (j == i) ≡ true → (x ≡ a) × (j ≡ i)
    at_entry x j h = (ground arith, ground arith)

    walks' :
        (x j : ℕ) (f : ℕ → Option ℕ)
        → ((c : ℕ) → ((k : ℕ) → linked lower c k ≡ none) → f c ≡ none)
        → bind (linked upper' x j) f ≡ bind (linked upper x j) f
    walks' x j f h = elim (Bool-cases ((x == a) && (j == i))) [
      | inr other ↦ ap (λ t. bind t f) (else' x j other)
      | inl same ↦
          let (p, q) = at_entry x j same in
          let now : linked upper' x j ≡ some b.next =
            ap (λ t. linked upper' t j) p ∙ ap (λ t. linked upper' a t) q ∙ link' in
          let was : linked upper x j ≡ none =
            ap (λ t. linked upper t j) p ∙ ap (λ t. linked upper a t) q ∙ before in
          ap (λ t. bind t f) now
          ∙ h b.next (λ k. linked-absent lower b.next k vacant)
          ∙ sym (ap (λ t. bind t f) was)
    ]

    has_more : (c : ℕ) → has lower c ≡ true → has lower' c ≡ true
    has_more c h = elim (Bool-cases (c == b.next)) [
      | inr other ↦ has-insert_table-else lower b.next c other ∙ h
      | inl same ↦ absurd (ground (arith, l.fresh c h, same))
    ]

    -- An entry in use is the new one or was in use.
    linked-cases :
        (x j c : ℕ)
        → linked upper' x j ≡ some c
        → ((x ≡ a) × (j ≡ i) × (c ≡ b.next)) ⊎ (linked upper x j ≡ some c)
    linked-cases x j c h = elim (Bool-cases ((x == a) && (j == i))) [
      | inr other ↦ inr (sym (else' x j other) ∙ h)
      | inl same ↦
          let (p, q) = at_entry x j same in
          let now : linked upper' x j ≡ some b.next =
            ap (λ t. linked upper' t j) p ∙ ap (λ t. linked upper' a t) q ∙ link' in
          inl (p, q, cc (now, h))
    ]

    level' : Level upper' lower' after.next
    level' = record {
      whole = λ x j c h. elim (linked-cases x j c h) [
        | inl n ↦ ap (λ t. has lower' t) n.2 ∙ has-insert_table-here lower b.next
        | inr old ↦ has_more c (l.whole x j c old)
      ];
      single = λ x j y k c h g. elim (linked-cases x j c h) [
        | inl n ↦ elim (linked-cases y k c g) [
          | inl m ↦ (n.0 ∙ sym m.0, n.1 ∙ sym m.1)
          | inr old ↦ absurd (omega (arith, n.2, l.fresh c (l.whole y k c old)))
        ]
        | inr was ↦ elim (linked-cases y k c g) [
          | inl m ↦ absurd (omega (arith, m.2, l.fresh c (l.whole x j c was)))
          | inr old ↦ l.single x j y k c was old
        ]
      ];
      fresh = λ c h. elim (Bool-cases (c == b.next)) [
        | inl same ↦ ground (arith, more)
        | inr other ↦
            omega (arith, more, l.fresh c (sym (has-insert_table-else lower b.next c other) ∙ h))
      ];
    }

    new-Descended :
        Descended upper lower a i b
          (record { child = b.next; upper = upper'; lower = lower'; builder = after })
    new-Descended = record {
      link = link';
      walks = walks';
      below = λ x j. linked-insert_table lower b.next x j vacant;
      above = λ x. has-write_entry upper a i e table at x;
      level = level';
      grows = omega (arith, more);
      flags = write_entry-Flagged upper a i e table at bits;
      flags_below = insert_table-Flagged lower b.next;
    }

next_multiple-reach : (size len : ℕ) → 0 < size → next_multiple 4096 size ≡ done len → 4096 ≤ len
unfolding next_multiple
next_multiple-reach size len h k =
    ground (arith, k, div-add-mod (4096 + (size - 1)) size, mod-lt (4096 + (size - 1)) h)

-- The builder of a machine whose memory ends at 2 ^ 63 at most.
pub record Builds (r : Ram) (b : Builder) : Type 0 where
  pub size : 0 < block_size r
  pub memory : r.len ≤ 2 ^ 63
  pub order : Ordered (block_size r) 0 b.blocks

module _ (commit map : ℕ → ℕ → Bool) (r : Ram) where
  -- The page table is at the address that the builder has got to.
  pub record Grown (b : Builder) (n : ℕ × Builder) : Type 0 where
    pub at : n.0 ≡ b.next
    pub more : b.next < n.1.next
    pub inside : b.next < 2 ^ 63
    pub builds : Builds r n.1

  pub alloc_page_table-Grown :
      (b : Builder) (n : ℕ × Builder)
      → Builds r b
      → alloc_page_table commit map r b ≡ done (ok n)
      → Grown b n
  unfolding alloc_page_table
  alloc_page_table-Grown b n g h =
      let (len, whole, rest) = bind-done (next_multiple 4096 (block_size r)) _ h in
      let (al, run) = assert-done (b.next % 4096 == 0) _ rest in
      let (after, made, last) = and_then_ok-done (alloc commit map r b.next len b.blocks) _ run in
      let (a, _) = alloc-Allocated commit map r b.next len b.blocks after g.size g.order made in
      let fits = alloc-fits commit map r b.next len b.blocks after made in
      let reach = next_multiple-reach (block_size r) len g.size whole in
      let n_eq = ok-injective last in
      subst (Grown b) n_eq (record {
        at = refl;
        more = omega arith;
        inside = omega (arith, fits, g.memory);
        builds = record { size = g.size; memory = g.memory; order = a.order };
      })

  module _ (failed : RamError → BuilderError) (upper lower : Tables) (a i : ℕ) (b : Builder) where
    descend-none :
        upper a ≡ none → descend commit map r failed upper lower a i b ≡ panic unwrap_none
    unfolding descend
    descend-none h = rw (descend, h) refl

    -- The entry is in use.
    descend-lost :
        (table : Table)
        → upper a ≡ some table
        → (table i == 0) ≡ false
        → lower (entry_addr (table i)) ≡ none
        → descend commit map r failed upper lower a i b ≡ panic unwrap_none
    unfolding descend
    descend-lost table h k g = rw (descend, h, k, g) refl

    pub descend-there :
        (table there : Table)
        → upper a ≡ some table
        → (table i == 0) ≡ false
        → lower (entry_addr (table i)) ≡ some there
        → descend commit map r failed upper lower a i b
          ≡ done (
              ok (record {
                child = entry_addr (table i);
                upper = upper;
                lower = lower;
                builder = b;
              }))
    unfolding descend
    descend-there table there h k g = rw (descend, h, k, g) refl

    -- The entry gets a table.
    abbrev inserted : Table → ℕ × Builder → ℕ → Down
    inserted table n e = record {
      child = n.0;
      upper = write_entry upper a table i e;
      lower = insert_table lower n.0;
      builder = n.1;
    }

    abbrev link_new : Table → ℕ × Builder → ℕ → Flow (Result Down BuilderError)
    link_new table n e = elim (lower n.0) [
      | some there ↦ panic explicit
      | none ↦ done (ok (inserted table n e))
    ]

    abbrev new_table : Table → Flow (Result Down BuilderError)
    new_table table =
        and_then_ok (map_err failed (alloc_page_table commit map r b))
          λ n. set_page_entry n.0 >>= link_new table n

    descend-new :
        (table : Table)
        → upper a ≡ some table
        → (table i == 0) ≡ true
        → descend commit map r failed upper lower a i b ≡ new_table table
    unfolding descend
    descend-new table h k = rw (descend, h, k) refl

    link_new-Descended :
        (table : Table) (n : ℕ × Builder) (e : ℕ) (d : Down)
        → upper a ≡ some table
        → (table i == 0) ≡ true
        → Builds r b
        → Level upper lower b.next
        → Grown b n
        → set_page_entry n.0 ≡ done e
        → link_new table n e ≡ done (ok d)
        → Descended upper lower a i b d × Builds r d.builder
    link_new-Descended table n e d h k g l grown wrote last = elim (Option-cases (lower n.0)) [
      | inr there ↦ cc (last, there.1)
      | inl vacant ↦
          let low : n.0 < 2 ^ 63 = omega (arith, grown.at, grown.inside) in
          let entry = entry_addr-set_page_entry n.0 e low wrote in
          let bits = set_page_entry-bits n.0 e low wrote in
          let made : link_new table n e ≡ done (ok (inserted table n e)) =
            rw (link_new, vacant) refl in
          let fresh =
            new-Descended upper lower a i b table e n.1 h k entry.1 bits (entry.0 ∙ grown.at)
              grown.more (ap lower (sym grown.at) ∙ vacant) l in
          subst (λ d. Descended upper lower a i b d × Builds r d.builder)
            (ok-injective (sym made ∙ last))
            (
              subst (λ t. Descended upper lower a i b (inserted table (t, n.1) e)) (sym grown.at)
                  fresh,
              grown.builds,
            )
    ]

    new_table-Descended :
        (table : Table) (d : Down)
        → upper a ≡ some table
        → (table i == 0) ≡ true
        → Builds r b
        → Level upper lower b.next
        → new_table table ≡ done (ok d)
        → Descended upper lower a i b d × Builds r d.builder
    new_table-Descended table d h k g l run =
        let (n, made, rest) =
          and_then_ok-done (map_err failed (alloc_page_table commit map r b)) _ run in
        let grown =
          alloc_page_table-Grown b n g
            (map_err-done failed (alloc_page_table commit map r b) made) in
        let (e, wrote, last) = bind-done (set_page_entry n.0) (link_new table n) rest in
        link_new-Descended table n e d h k g l grown wrote last

  pub descend-Descended :
      (failed : RamError → BuilderError) (upper lower : Tables) (a i : ℕ) (b : Builder) (d : Down)
      → Builds r b
      → Level upper lower b.next
      → descend commit map r failed upper lower a i b ≡ done (ok d)
      → Descended upper lower a i b d × Builds r d.builder
  descend-Descended failed upper lower a i b d g l h = elim (Option-cases (upper a)) [
    | inl gone ↦ cc (h, descend-none failed upper lower a i b gone)
    | inr table ↦ elim (Bool-cases (table.0 i == 0)) [
      | inl empty ↦
          new_table-Descended failed upper lower a i b table.0 d table.1 empty g l
            (sym (descend-new failed upper lower a i b table.0 table.1 empty) ∙ h)
      | inr used ↦ elim (Option-cases (lower (entry_addr (table.0 i)))) [
        | inl lost ↦ cc (h, descend-lost failed upper lower a i b table.0 table.1 used lost)
        | inr there ↦
            let run = descend-there failed upper lower a i b table.0 there.0 table.1 used there.1 in
            let link : linked upper a i ≡ some (entry_addr (table.0 i)) =
              linked-there upper a table.0 i table.1 ∙ ground (arith, used) in
            subst (λ d. Descended upper lower a i b d × Builds r d.builder)
              (ok-injective (sym run ∙ h)) (there-Descended upper lower a i b _ link l, g)
      ]
    ]
  ]
