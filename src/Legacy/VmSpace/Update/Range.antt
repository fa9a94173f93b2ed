-- ===== src/Legacy/VmSpace/Update/Range.antt =====
-- legacy/src/vm/vm.rs: `update` on the allocations that the iterator goes through, among all of them.
use obliteration.Prelude.{
  ℕ, ◌≡◌, ◌<◌, ◌≤◌, sym, ap, ◌∙◌, Bool, true, false, List, [], ◌∷◌, ◌++◌, arith, Flow, done,
  Bool-cases, inl, inr, Option-cases,
}
use obliteration.Legacy.VmSpace.{Alloc, end_of, insert, insert_all, start_from}
use obliteration.Legacy.VmSpace.Cut.{Apart}
use obliteration.Legacy.VmSpace.Edit.{AddsFrom, AddsFrom-lower, insert_all-later}
use obliteration.Legacy.VmSpace.Start.{covers, covered, start_from-here, start_from-later}
use obliteration.Legacy.VmSpace.Refine.{uncovered, covered_later, covered_behind}
use obliteration.Legacy.VmSpace.Update.{Updating, assert_all, update_each}
use obliteration.Legacy.VmSpace.Update.Select.{mark, covered-rest, covered-more, Contiguous, Gap}
use obliteration.Legacy.VmSpace.Update.Pieces.{renew, renew_front}
use obliteration.Legacy.VmSpace.Update.Begin.{Renews-at}

-- Insertions that succeed pass the assertion.
pub assert_all-done :
    (adds allocs added : List Alloc)
    → insert_all adds allocs ≡ done added
    → assert_all adds allocs ≡ done added
unfolding assert_all insert_all
assert_all-done [] allocs added h = h
assert_all-done (a ∷ adds) allocs added h = elim (Option-cases (insert a allocs)) [
  | inl taken ↦ ground arith
  | inr fits ↦ ground (arith, fits.1, assert_all-done adds fits.0 added)
]

module _ (filter : Alloc → Bool) (change : Alloc → Flow Alloc) (f : Alloc → Alloc)
    (runs : (a : Alloc) → change a ≡ done (f a)) (keeps_addr : (a : Alloc) → (f a).addr ≡ a.addr)
    (keeps_len : (a : Alloc) → (f a).len ≡ a.len) where
  -- The iterator splits the list before the allocation `hit` that `first` lies in.
  pub record Ranges (first end lo : ℕ) (allocs : List Alloc) : Type 0 where
    pub front : List Alloc
    pub hit : Alloc
    pub rest : List Alloc
    pub start : start_from allocs first ≡ (front, hit ∷ rest)
    pub from : hit.addr ≤ first
    pub to : first < end_of hit
    pub nonempty : 0 < hit.len
    pub later : Apart (end_of hit) rest
    pub gaps : (x : ℕ) → first ≤ x → covered (hit ∷ rest) x ≡ false → covered allocs x ≡ false
    pub inside : (x : ℕ) → covered (hit ∷ rest) x ≡ true → covered allocs x ≡ true
    pub changes : Updating
    pub added : List Alloc
    pub run : update_each change first end (mark filter end (hit ∷ rest)) ≡ done changes
    pub adds_from : AddsFrom lo changes.adds
    pub inserts : insert_all changes.adds (front ++ changes.kept) ≡ done added
    pub leaves : added ≡ renew filter f first end allocs

  Ranges-here :
      (first end lo : ℕ) (a : Alloc) (rest : List Alloc)
      → first < end
      → a.addr ≤ first
      → first < end_of a
      → Apart lo (a ∷ rest)
      → Ranges first end lo (a ∷ rest)
  Ranges-here first end lo a rest h k l w =
      let r = Renews-at filter change f runs keeps_addr keeps_len first end lo a rest h k l w in
      record {
        front = [];
        hit = a;
        rest = rest;
        start = start_from-here first a rest k l w.2;
        from = k;
        to = l;
        nonempty = w.1;
        later = w.2;
        gaps = λ x low gap. gap;
        inside = λ x there. there;
        changes = r.changes;
        added = r.added;
        run = r.run;
        adds_from = r.adds_from;
        inserts = r.inserts;
        leaves = r.leaves;
      }

  Ranges-later :
      (first end lo : ℕ) (a : Alloc) (rest : List Alloc)
      → first < end
      → end_of a ≤ first
      → covered rest first ≡ true
      → Apart lo (a ∷ rest)
      → Ranges first end (end_of a) rest
      → Ranges first end lo (a ∷ rest)
  Ranges-later first end lo a rest h k c w r = record {
    front = a ∷ r.front;
    hit = r.hit;
    rest = r.rest;
    start = start_from-later first a rest r.front (r.hit ∷ r.rest) w.1 w.2 c r.start;
    from = r.from;
    to = r.to;
    nonempty = r.nonempty;
    later = r.later;
    gaps = λ x low gap. covered-rest a rest x (omega arith) (r.gaps x low gap);
    inside = λ x there. covered-more a rest x (r.inside x there);
    changes = r.changes;
    added = a ∷ r.added;
    run = r.run;
    adds_from = AddsFrom-lower lo (end_of a) r.changes.adds (omega (arith, w.0)) r.adds_from;
    inserts =
        insert_all-later r.changes.adds a (r.front ++ r.changes.kept) r.added (end_of a)
          (omega (arith, w.1)) r.adds_from r.inserts;
    leaves =
        ap (λ l. a ∷ l) r.leaves ∙ sym (renew_front filter f first end a rest k (omega arith) w.1);
  }

  pub Ranges-covered :
      (first end lo : ℕ) (allocs : List Alloc)
      → first < end
      → Apart lo allocs
      → covered allocs first ≡ true
      → Ranges first end lo allocs
  Ranges-covered first end lo [] h w c = absurd (uncovered first c)
  Ranges-covered first end lo (a ∷ rest) h w c = elim (Bool-cases (covers a first)) [
    | inl here ↦ Ranges-here first end lo a rest h (ground arith) (ground arith) w
    | inr elsewhere ↦
        let later = covered_later a rest first c elsewhere in
        Ranges-later first end lo a rest h (covered_behind a rest first w.2 later elsewhere) later w
          (Ranges-covered first end (end_of a) rest h w.2 later)
  ]

  -- What the iterator goes through has the gaps that all allocations have from `first` on.
  pub Contiguous-all :
      {first end lo : ℕ} {allocs : List Alloc} (r : Ranges first end lo allocs)
      → Contiguous (r.hit ∷ r.rest) first end
      → Contiguous allocs first end
  Contiguous-all r c x y low near far there = elim (Bool-cases (covered (r.hit ∷ r.rest) y)) [
    | inl mapped ↦ r.inside x (c x y low near far mapped)
    | inr gap ↦ cc (there, r.gaps y (omega (arith, low, near)) gap)
  ]

  pub Gap-all :
      {first end lo : ℕ} {allocs : List Alloc} (r : Ranges first end lo allocs) (x : ℕ)
      → Gap (r.hit ∷ r.rest) first end x
      → Gap allocs first end x
  Gap-all r x g = record {
    low = g.low;
    mapped = λ z low below. r.inside z (g.mapped z low below);
    unmapped = r.gaps x g.low g.unmapped;
    behind = g.behind;
    later = g.later;
    within = g.within;
    again = r.inside g.behind g.again;
  }
