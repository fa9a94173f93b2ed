-- ===== src/Legacy/VmSpace/Update/Each.antt =====
-- legacy/src/vm/vm.rs: the second loop of `update` and the insertions behind it, against the pieces.
use obliteration.Prelude.{
  ℕ, ◌+◌, ◌-◌, ◌≡◌, ◌<◌, ◌≤◌, refl, sym, ap, ◌∙◌, Bool, true, false, List, [], ◌∷◌, ◌++◌, leb,
  arith, Flow, done, dec_lt, dec_le, Bool-cases, inl, inr, map,
}
use obliteration.Legacy.VmSpace.{Alloc, end_of, insert_all}
use obliteration.Legacy.VmSpace.Cut.{Apart, head_of, tail_of, alloc_eq}
use obliteration.Legacy.VmSpace.Lookup.{Apart-lower}
use obliteration.Legacy.VmSpace.Edit.{AddsFrom, AddsFrom-lower, insert_all-later, insert_all-second}
use obliteration.Legacy.VmSpace.Update.{
  Updating, skipped, update_head, update_whole, update_one, update_each,
}
use obliteration.Legacy.VmSpace.Update.Select.{mark}
use obliteration.Legacy.VmSpace.Update.Pieces.{
  renew, renew_beyond, renew_other, renew_whole, renew_last,
}

module _ (filter : Alloc → Bool) (change : Alloc → Flow Alloc) (f : Alloc → Alloc)
    (runs : (a : Alloc) → change a ≡ done (f a)) (keeps_addr : (a : Alloc) → (f a).addr ≡ a.addr)
    (keeps_len : (a : Alloc) → (f a).len ≡ a.len) where
  -- The loop over `allocs` comes to an end, its insertions are at `lo` or above, and they leave the pieces.
  pub record Renews (first end lo : ℕ) (allocs : List Alloc) : Type 0 where
    pub changes : Updating
    pub added : List Alloc
    pub run : update_each change first end (mark filter end allocs) ≡ done changes
    pub adds_from : AddsFrom lo changes.adds
    pub ordered : Apart lo changes.kept
    pub inserts : insert_all changes.adds changes.kept ≡ done added
    pub leaves : added ≡ renew filter f first end allocs

  abbrev pub unchanged : List Alloc → Updating
  unchanged allocs = record { kept = allocs; adds = [] }

  each_skipped :
      (first end : ℕ) (allocs : List Alloc)
      → update_each change first end (map skipped allocs) ≡ done (unchanged allocs)
  unfolding update_each
  each_skipped first end [] = refl
  each_skipped first end (a ∷ rest) = rw (each_skipped first end rest) refl

  mark_beyond :
      (end lo : ℕ) (allocs : List Alloc)
      → end ≤ lo
      → Apart lo allocs
      → mark filter end allocs ≡ map skipped allocs
  unfolding mark
  mark_beyond end lo [] h w = refl
  mark_beyond end lo (a ∷ rest) h w = ground (arith, w.0)

  pub each_beyond :
      (first end lo : ℕ) (allocs : List Alloc)
      → end ≤ lo
      → Apart lo allocs
      → update_each change first end (mark filter end allocs) ≡ done (unchanged allocs)
  each_beyond first end lo allocs h w =
      ap (update_each change first end) (mark_beyond end lo allocs h w)
      ∙ each_skipped first end allocs

  pub Renews-beyond :
      (first end lo at : ℕ) (allocs : List Alloc)
      → first ≤ end
      → end ≤ at
      → lo ≤ at
      → Apart at allocs
      → Renews first end lo allocs
  Renews-beyond first end lo at allocs h k low w = record {
    changes = unchanged allocs;
    added = allocs;
    run = each_beyond first end at allocs k w;
    adds_from = tt;
    ordered = Apart-lower lo at allocs low w;
    inserts = unfold insert_all in refl;
    leaves = sym (renew_beyond filter f first end at allocs h k w);
  }

  pub each_target :
      (first end : ℕ) (a : Alloc) (rest : List Alloc) (one later : Updating)
      → a.addr < end
      → filter a ≡ true
      → update_one change first end a ≡ done one
      → update_each change first end (mark filter end rest) ≡ done later
      → update_each change first end (mark filter end (a ∷ rest))
        ≡ done (record { kept = one.kept ++ later.kept; adds = one.adds ++ later.adds })
  unfolding update_each mark
  each_target first end a rest one later h target run more =
      let inside : leb end a.addr ≡ false = ground arith in
      rw (mark, update_each, inside, target, run, more) refl

  each_other :
      (first end : ℕ) (a : Alloc) (rest : List Alloc) (later : Updating)
      → a.addr < end
      → filter a ≡ false
      → update_each change first end (mark filter end rest) ≡ done later
      → update_each change first end (mark filter end (a ∷ rest))
        ≡ done (record { kept = a ∷ later.kept; adds = later.adds })
  unfolding update_each mark
  each_other first end a rest later h other more =
      let inside : leb end a.addr ≡ false = ground arith in
      rw (mark, update_each, inside, other, more) refl

  pub Renews-other :
      (first end lo : ℕ) (a : Alloc) (rest : List Alloc)
      → lo ≤ a.addr
      → 0 < a.len
      → a.addr < end
      → filter a ≡ false
      → Renews first end (end_of a) rest
      → Renews first end lo (a ∷ rest)
  Renews-other first end lo a rest at pos h other r = record {
    changes = record { kept = a ∷ r.changes.kept; adds = r.changes.adds };
    added = a ∷ r.added;
    run = each_other first end a rest r.changes h other r.run;
    adds_from = AddsFrom-lower lo (end_of a) r.changes.adds (omega arith) r.adds_from;
    ordered = (at, pos, r.ordered);
    inserts =
        insert_all-later r.changes.adds a r.changes.kept r.added (end_of a) (omega arith)
          r.adds_from r.inserts;
    leaves = ap (λ l. a ∷ l) r.leaves ∙ sym (renew_other filter f first end a rest other);
  }

  one_whole :
      (first end : ℕ) (a : Alloc)
      → first ≤ a.addr
      → end_of a ≤ end
      → update_one change first end a ≡ done (record { kept = f a ∷ []; adds = [] })
  unfolding update_one update_whole
  one_whole first end a h k = ground (arith, runs a)

  pub Renews-whole :
      (first end lo : ℕ) (a : Alloc) (rest : List Alloc)
      → lo ≤ a.addr
      → 0 < a.len
      → a.addr < end
      → filter a ≡ true
      → first ≤ a.addr
      → end_of a ≤ end
      → Renews first end (end_of a) rest
      → Renews first end lo (a ∷ rest)
  Renews-whole first end lo a rest at pos h target k l r = record {
    changes = record { kept = f a ∷ r.changes.kept; adds = r.changes.adds };
    added = f a ∷ r.added;
    run = each_target first end a rest _ r.changes h target (one_whole first end a k l) r.run;
    adds_from = AddsFrom-lower lo (end_of a) r.changes.adds (omega arith) r.adds_from;
    ordered = (
      omega (arith, keeps_addr a),
      omega (arith, keeps_len a),
      Apart-lower _ (end_of a) r.changes.kept (omega (arith, keeps_addr a, keeps_len a)) r.ordered,
    );
    inserts =
        insert_all-later r.changes.adds (f a) r.changes.kept r.added (end_of a)
          (omega (arith, keeps_addr a)) r.adds_from r.inserts;
    leaves =
        ap (λ l. f a ∷ l) r.leaves ∙ sym (renew_whole filter f first end a rest target k l pos);
  }

  one_last :
      (first end : ℕ) (a : Alloc)
      → first ≤ a.addr
      → a.addr < end
      → end < end_of a
      → update_one change first end a
        ≡ done (record { kept = f (head_of end a) ∷ []; adds = tail_of end a ∷ [] })
  unfolding update_one update_head
  one_last first end a h k l =
      let same : record a { len = a.len - (end_of a - end) } ≡ head_of end a =
        alloc_eq _ _ refl (omega arith) refl refl refl in
      ground (arith, runs (head_of end a), same)

  pub Renews-last :
      (first end lo : ℕ) (a : Alloc) (rest : List Alloc)
      → lo ≤ a.addr
      → filter a ≡ true
      → first ≤ a.addr
      → a.addr < end
      → end < end_of a
      → Apart (end_of a) rest
      → Renews first end lo (a ∷ rest)
  Renews-last first end lo a rest at target h k l w =
      let head_addr = keeps_addr (head_of end a) in
      let head_len = keeps_len (head_of end a) in
      record {
        changes = record { kept = f (head_of end a) ∷ rest; adds = tail_of end a ∷ [] };
        added = f (head_of end a) ∷ tail_of end a ∷ rest;
        run =
            each_target first end a rest _ (unchanged rest) k target (one_last first end a h k l)
              (each_beyond first end (end_of a) rest (omega arith) w);
        adds_from = (omega arith, tt);
        ordered = (
          omega (arith, head_addr),
          omega (arith, head_len),
          Apart-lower _ (end_of a) rest (omega (arith, head_addr, head_len)) w,
        );
        inserts =
            insert_all-second (tail_of end a) (f (head_of end a)) (end_of a) rest
              (omega (arith, head_addr)) l w;
        leaves =
            ap (λ l. f (head_of end a) ∷ tail_of end a ∷ l)
              (sym (renew_beyond filter f first end (end_of a) rest (omega arith) (omega arith) w))
            ∙ sym (renew_last filter f first end a rest target h k l);
      }

  -- The allocations from `first` on.
  pub Renews-from :
      (first end lo : ℕ) (allocs : List Alloc)
      → first < end
      → first ≤ lo
      → Apart lo allocs
      → Renews first end lo allocs
  Renews-from first end lo [] h k w =
      Renews-beyond first end lo (lo + end) [] (omega arith) (omega arith) (omega arith) tt
  Renews-from first end lo (a ∷ rest) h k w = elim (dec_le end a.addr) [
    | yes beyond ↦
        Renews-beyond first end lo a.addr (a ∷ rest) (omega arith) beyond w.0
          (omega arith, w.1, w.2)
    | no within ↦
        let later = Renews-from first end (end_of a) rest h (omega (arith, w.0)) w.2 in
        elim (Bool-cases (filter a)) [
          | inr other ↦ Renews-other first end lo a rest w.0 w.1 (omega arith) other later
          | inl target ↦ elim (dec_lt end (end_of a)) [
            | yes last ↦
                Renews-last first end lo a rest w.0 target (omega (arith, w.0)) (omega arith) last
                  w.2
            | no whole ↦
                Renews-whole first end lo a rest w.0 w.1 (omega arith) target (omega (arith, w.0))
                  (omega arith) later
          ]
        ]
  ]
