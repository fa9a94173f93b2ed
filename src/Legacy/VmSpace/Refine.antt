-- ===== src/Legacy/VmSpace/Refine.antt =====
-- `munmap` against the list with the range cut out.
use obliteration.Prelude.{
  ℕ, ◌+◌, ◌*◌, ◌/◌, ◌%◌, ◌^◌, ℕ_discrete, ◌≡◌, ◌≢◌, ◌<◌, ◌≤◌, sym, ap, ◌∙◌, Bool, true, false, not,
  ◌&&◌, none, List, [], ◌∷◌, ◌++◌, ◌==◌, ltb, leb, if◌then◌else◌, arith, Flow, done, ◌>>=◌,
  Bool-cases, inl, inr, ok, err, dec_lt, append-nil,
}
use obliteration.Legacy.VmSpace.{
  Alloc, end_of, page_size, align_virtual_page, Unmapping, start_from, unmap_each, insert_all,
  remove_all, munmap, unaligned_addr, zero_len,
}
use obliteration.Legacy.VmSpace.Cut.{Apart, cut, cut_front}
use obliteration.Legacy.VmSpace.Edit.{
  KeysFrom, AddsFrom, KeysFrom-lower, AddsFrom-lower, remove_all-later, insert_all-later,
}
use obliteration.Legacy.VmSpace.Unmap.{Cuts-at}
use obliteration.Legacy.VmSpace.Start.{
  covers, covered, covered-from, start_from-none, start_from-here, start_from-later,
}
use obliteration.Legacy.VmSpace.Lookup.{page_at, page_at-cut, cut-Apart}

-- The end of the last page of a range.
abbrev pub page_end : ℕ → ℕ → ℕ
page_end addr len = (addr + len + 0x3fff) / 0x4000 * 0x4000

pub page_end-behind : (addr len : ℕ) → addr + len ≤ page_end addr len
page_end-behind addr len = omega arith

-- What the code makes of the end is that, where nothing wraps around.
pub align_virtual_page-page_end :
    (addr len : ℕ)
    → addr + len + 0x3fff < 2 ^ 64
    → align_virtual_page ((addr + len) % 2 ^ 64) ≡ page_end addr len
unfolding align_virtual_page
align_virtual_page-page_end addr len h = rw whole (elim (ℕ_discrete ((addr + len) % page_size) 0) [
  | yes e ↦ ground (arith, e)
  | no ne ↦ ground (arith, ne)
])
  where
    whole : (addr + len) % 2 ^ 64 ≡ addr + len
    whole = omega (arith, h)

pub uncovered : (x : ℕ) → covered [] x ≢ true
unfolding covered
uncovered x h = cc

pub covered_later :
    (a : Alloc) (rest : List Alloc) (x : ℕ)
    → covered (a ∷ rest) x ≡ true
    → covers a x ≡ false
    → covered rest x ≡ true
unfolding covered
covered_later a rest x h k = ground arith

pub covered_behind :
    (a : Alloc) (rest : List Alloc) (x : ℕ)
    → Apart (end_of a) rest
    → covered rest x ≡ true
    → covers a x ≡ false
    → end_of a ≤ x
covered_behind a rest x w c h = covered-from x (end_of a) rest w c

module _ (decommit : ℕ → ℕ → ℕ → Bool) (commits : (s a l : ℕ) → decommit s a l ≡ true) where
  -- The iterator splits the list, and the loop and the edits behind it leave what `cut` leaves.
  record Ranges (first end lo : ℕ) (allocs : List Alloc) : Type 0 where
    front : List Alloc
    suffix : List Alloc
    changes : Unmapping
    added : List Alloc
    start : start_from allocs first ≡ (front, suffix)
    run : unmap_each decommit first end suffix ≡ done changes
    adds_from : AddsFrom lo changes.adds
    removes_from : KeysFrom lo changes.removes
    inserts : insert_all changes.adds (front ++ changes.kept) ≡ done added
    leaves : remove_all changes.removes added ≡ cut first end allocs

  Ranges-here :
      (first end lo : ℕ) (a : Alloc) (rest : List Alloc)
      → first < end
      → a.addr ≤ first
      → first < end_of a
      → Apart lo (a ∷ rest)
      → Ranges first end lo (a ∷ rest)
  Ranges-here first end lo a rest h k l w =
      let c = Cuts-at decommit commits first end lo a rest h k l w in
      record {
        front = [];
        suffix = a ∷ rest;
        changes = c.changes;
        added = c.added;
        start = start_from-here first a rest k l w.2;
        run = c.run;
        adds_from = c.adds_from;
        removes_from = c.removes_from;
        inserts = c.inserts;
        leaves = c.leaves;
      }

  Ranges-later :
      (first end lo : ℕ) (a : Alloc) (rest : List Alloc)
      → first < end
      → end_of a ≤ first
      → covered rest first ≡ true
      → Apart lo (a ∷ rest)
      → Ranges first end (end_of a) rest
      → Ranges first end lo (a ∷ rest)
  Ranges-later first end lo a rest h k c w r = record {
    front = a ∷ r.front;
    suffix = r.suffix;
    changes = r.changes;
    added = a ∷ r.added;
    start = start_from-later first a rest r.front r.suffix w.1 w.2 c r.start;
    run = r.run;
    adds_from = AddsFrom-lower lo (end_of a) r.changes.adds (omega (arith, w.0)) r.adds_from;
    removes_from =
        KeysFrom-lower lo (end_of a) r.changes.removes (omega (arith, w.0)) r.removes_from;
    inserts =
        insert_all-later r.changes.adds a (r.front ++ r.changes.kept) r.added (end_of a)
          (omega (arith, w.1)) r.adds_from r.inserts;
    leaves =
        remove_all-later r.changes.removes a r.added (end_of a) (omega (arith, w.1)) r.removes_from
        ∙ ap (λ l. a ∷ l) r.leaves
        ∙ sym (cut_front first end a rest k (omega arith) w.1);
  }

  Ranges-covered :
      (first end lo : ℕ) (allocs : List Alloc)
      → first < end
      → Apart lo allocs
      → covered allocs first ≡ true
      → Ranges first end lo allocs
  Ranges-covered first end lo [] h w c = absurd (uncovered first c)
  Ranges-covered first end lo (a ∷ rest) h w c = elim (Bool-cases (covers a first)) [
    | inl here ↦ Ranges-here first end lo a rest h (ground arith) (ground arith) w
    | inr elsewhere ↦
        let later = covered_later a rest first c elsewhere in
        Ranges-later first end lo a rest h (covered_behind a rest first w.2 later elsewhere) later w
          (Ranges-covered first end (end_of a) rest h w.2 later)
  ]

  abbrev edits : List Alloc → ℕ → ℕ → Flow (List Alloc)
  edits allocs addr end =
      let range = start_from allocs addr in
      unmap_each decommit addr end range.1 >>= λ u.
      insert_all u.adds (range.0 ++ u.kept) >>= λ added. done (remove_all u.removes added)

  munmap_covered :
      (allocs : List Alloc) (addr end : ℕ)
      → Ranges addr end 0 allocs
      → edits allocs addr end ≡ done (cut addr end allocs)
  munmap_covered allocs addr end r =
      rw r.start (rw r.run (rw r.inserts (ap (λ l. done l) r.leaves)))

  munmap_gap :
      (allocs : List Alloc) (addr end : ℕ)
      → Apart 0 allocs
      → covered allocs addr ≡ false
      → edits allocs addr end ≡ done allocs
  unfolding unmap_each insert_all remove_all
  munmap_gap allocs addr end w h =
      rw (start_from-none addr 0 allocs w h) (ap (λ l. done l) (append-nil allocs))

  -- `munmap` refuses an address that is not aligned, then an empty range. Where the address lies in
  -- an allocation, it leaves the pieces of the allocations in front of the range and behind its end,
  -- which is rounded up to a page, and otherwise it leaves everything as it is. The allocations are
  -- in order, the end of the range rounded up lies below 2 ^ 64, and the host gives all memory back.
  pub munmap_refines :
      (allocs : List Alloc) (addr len : ℕ)
      → Apart 0 allocs
      → addr + len + 0x3fff < 2 ^ 64
      → munmap decommit allocs addr len
        ≡ done (
            if not (addr % page_size == 0)
            then err unaligned_addr
            else if len == 0
            then err zero_len
            else ok (if covered allocs addr then cut addr (page_end addr len) allocs else allocs))
  unfolding munmap
  munmap_refines allocs addr len w fits =
      rw (align_virtual_page-page_end addr len fits) (elim (dec_lt 0 len) [
        | no empty ↦ ground arith
        | yes pos ↦ elim (Bool-cases (covered allocs addr)) [
          | inl there ↦ ground (
            arith,
            munmap_covered allocs addr (page_end addr len) (
                Ranges-covered addr (page_end addr len) 0 allocs
                  (omega (arith, page_end-behind addr len)) w there),
            there,
          )
          | inr gap ↦ ground (arith, munmap_gap allocs addr (page_end addr len) w gap, gap)
        ]
      ])

  -- Unmapping from an aligned address in an allocation, of at least one byte, succeeds: then no
  -- address from there up to the end of the last page stands for anything, every other address
  -- stands for what it stood for, and the allocations are still in order. They are in order before,
  -- the end of the range rounded up lies below 2 ^ 64, and the host gives all memory back.
  pub munmap_unmaps :
      (allocs : List Alloc) (addr len : ℕ)
      → Apart 0 allocs
      → addr + len + 0x3fff < 2 ^ 64
      → addr % page_size ≡ 0
      → 0 < len
      → covered allocs addr ≡ true
      → (after : List Alloc) × (munmap decommit allocs addr len ≡ done (ok after))
        × Apart 0 after
        × ((x : ℕ)
            → page_at after x
              ≡ (if leb addr x && ltb x (page_end addr len) then none else page_at allocs x))
  munmap_unmaps allocs addr len w fits al pos c =
      let end : ℕ = page_end addr len in
      (
        cut addr end allocs,
        munmap_refines allocs addr len w fits ∙ ground arith,
        cut-Apart addr end 0 allocs (omega (arith, page_end-behind addr len)) w,
        page_at-cut addr end allocs,
      )
