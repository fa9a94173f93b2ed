-- ===== src/Legacy/VmSpace/Unmap.antt =====
-- `munmap` leaves the pieces of the allocations outside the range.
use obliteration.Prelude.{
  ℕ, ◌-◌, ◌≡◌, ◌<◌, ◌≤◌, refl, sym, ap, ◌∙◌, Bool, true, List, [], ◌∷◌, ◌++◌, arith, done, dec_lt,
  dec_le,
}
use obliteration.Legacy.VmSpace.{
  Alloc, end_of, Unmapping, unmap_first, unmap_head, unmap_whole, unmap_one, unmap_each, insert_all,
  remove_all,
}
use obliteration.Legacy.VmSpace.Cut.{
  Apart, cut, cut_beyond, cut_whole, cut_last, cut_first, cut_middle, tail_of, head_of, alloc_eq,
}
use obliteration.Legacy.VmSpace.Edit.{
  KeysFrom, AddsFrom, KeysFrom-lower, AddsFrom-lower, remove_all-here, remove_all-one,
  remove_all-none, insert_all-second, remove_all-later, insert_all-later,
}

-- Every decommit succeeds.
module _ (decommit : ℕ → ℕ → ℕ → Bool) (commits : (s a l : ℕ) → decommit s a l ≡ true) where
  -- The loop over `allocs` comes to an end, its edits are at `lo` or above, and they leave what
  -- `cut` leaves.
  pub record Cuts (first end lo : ℕ) (allocs : List Alloc) : Type 0 where
    pub changes : Unmapping
    pub added : List Alloc
    pub run : unmap_each decommit first end allocs ≡ done changes
    pub adds_from : AddsFrom lo changes.adds
    pub removes_from : KeysFrom lo changes.removes
    pub inserts : insert_all changes.adds changes.kept ≡ done added
    pub leaves : remove_all changes.removes added ≡ cut first end allocs

  Cuts-lower :
      (first end lo lo' : ℕ) (allocs : List Alloc)
      → lo ≤ lo'
      → Cuts first end lo' allocs
      → Cuts first end lo allocs
  Cuts-lower first end lo lo' allocs h c = record {
    changes = c.changes;
    added = c.added;
    run = c.run;
    adds_from = AddsFrom-lower lo lo' c.changes.adds h c.adds_from;
    removes_from = KeysFrom-lower lo lo' c.changes.removes h c.removes_from;
    inserts = c.inserts;
    leaves = c.leaves;
  }

  abbrev unchanged : List Alloc → Unmapping
  unchanged allocs = record { kept = allocs; adds = []; removes = [] }

  each_beyond :
      (first end lo : ℕ) (allocs : List Alloc)
      → end ≤ lo
      → Apart lo allocs
      → unmap_each decommit first end allocs ≡ done (unchanged allocs)
  unfolding unmap_each
  each_beyond first end lo [] h w = refl
  each_beyond first end lo (a ∷ rest) h w = ground (arith, w.0)

  Cuts-beyond :
      (first end lo at : ℕ) (allocs : List Alloc)
      → first ≤ end
      → end ≤ at
      → Apart at allocs
      → Cuts first end lo allocs
  Cuts-beyond first end lo at allocs h k w = record {
    changes = unchanged allocs;
    added = allocs;
    run = each_beyond first end at allocs k w;
    adds_from = tt;
    removes_from = tt;
    inserts = unfold insert_all in refl;
    leaves = remove_all-none allocs ∙ sym (cut_beyond first end at allocs h k w);
  }

  each_more :
      (first end : ℕ) (a : Alloc) (rest : List Alloc) (one later : Unmapping)
      → a.addr < end
      → unmap_one decommit first end a ≡ done one
      → unmap_each decommit first end rest ≡ done later
      → unmap_each decommit first end (a ∷ rest)
        ≡ done (record {
          kept = one.kept ++ later.kept;
          adds = one.adds ++ later.adds;
          removes = one.removes ++ later.removes;
        })
  unfolding unmap_each
  each_more first end a rest one later h run more = ground arith

  one_whole :
      (first end : ℕ) (a : Alloc)
      → first ≤ a.addr
      → end_of a ≤ end
      → unmap_one decommit first end a
        ≡ done (record { kept = a ∷ []; adds = []; removes = a.addr ∷ [] })
  unfolding unmap_one unmap_whole
  one_whole first end a h k = ground (arith, commits a.storage a.addr a.len)

  Cuts-whole :
      (first end lo : ℕ) (a : Alloc) (rest : List Alloc)
      → lo ≤ a.addr
      → 0 < a.len
      → first ≤ a.addr
      → end_of a ≤ end
      → Cuts first end (end_of a) rest
      → Cuts first end lo (a ∷ rest)
  Cuts-whole first end lo a rest at pos h k c = record {
    changes = record {
      kept = a ∷ c.changes.kept;
      adds = c.changes.adds;
      removes = a.addr ∷ c.changes.removes;
    };
    added = a ∷ c.added;
    run = each_more first end a rest _ c.changes (omega arith) (one_whole first end a h k) c.run;
    adds_from = AddsFrom-lower lo (end_of a) c.changes.adds (omega arith) c.adds_from;
    removes_from =
        (at, KeysFrom-lower lo (end_of a) c.changes.removes (omega arith) c.removes_from);
    inserts =
        insert_all-later c.changes.adds a c.changes.kept c.added (end_of a) (omega arith)
          c.adds_from c.inserts;
    leaves =
        remove_all-here c.changes.removes a c.added
        ∙ c.leaves
        ∙ sym (cut_whole first end a rest h k);
  }

  one_last :
      (first end : ℕ) (a : Alloc)
      → first ≤ a.addr
      → a.addr < end
      → end < end_of a
      → unmap_one decommit first end a
        ≡ done (record { kept = a ∷ []; adds = tail_of end a ∷ []; removes = a.addr ∷ [] })
  unfolding unmap_one unmap_head
  one_last first end a h k l =
      let same : record a { addr = end; len = a.len - (end - a.addr) } ≡ tail_of end a =
        alloc_eq _ _ refl (omega arith) refl refl refl in
      ground (arith, commits a.storage a.addr (end - a.addr), same)

  Cuts-last :
      (first end lo : ℕ) (a : Alloc) (rest : List Alloc)
      → lo ≤ a.addr
      → first ≤ a.addr
      → a.addr < end
      → end < end_of a
      → Apart (end_of a) rest
      → Cuts first end lo (a ∷ rest)
  Cuts-last first end lo a rest at h k l w = record {
    changes = record { kept = a ∷ rest; adds = tail_of end a ∷ []; removes = a.addr ∷ [] };
    added = a ∷ tail_of end a ∷ rest;
    run =
        each_more first end a rest _ (unchanged rest) k (one_last first end a h k l)
          (each_beyond first end (end_of a) rest (omega arith) w);
    adds_from = (omega arith, tt);
    removes_from = (at, tt);
    inserts = insert_all-second (tail_of end a) a (end_of a) rest k l w;
    leaves =
        remove_all-one a (tail_of end a ∷ rest)
        ∙ ap (λ r. tail_of end a ∷ r)
            (sym (cut_beyond first end (end_of a) rest (omega arith) (omega arith) w))
        ∙ sym (cut_last first end a rest h k l);
  }

  -- The allocations from `first` on.
  pub Cuts-from :
      (first end lo : ℕ) (allocs : List Alloc)
      → first < end
      → first ≤ lo
      → Apart lo allocs
      → Cuts first end lo allocs
  Cuts-from first end lo [] h k w = Cuts-beyond first end lo end [] (omega arith) (omega arith) tt
  Cuts-from first end lo (a ∷ rest) h k w = elim (dec_le end a.addr) [
    | yes beyond ↦
        Cuts-beyond first end lo end (a ∷ rest) (omega arith) (omega arith) (beyond, w.1, w.2)
    | no within ↦ elim (dec_lt end (end_of a)) [
      | yes last ↦ Cuts-last first end lo a rest w.0 (omega (arith, w.0)) (omega arith) last w.2
      | no whole ↦
          Cuts-whole first end lo a rest w.0 w.1 (omega (arith, w.0)) (omega arith)
            (Cuts-from first end (end_of a) rest h (omega (arith, w.0)) w.2)
    ]
  ]

  one_first :
      (first end : ℕ) (a : Alloc)
      → a.addr < first
      → first < end_of a
      → end_of a ≤ end
      → unmap_one decommit first end a
        ≡ done (record { kept = head_of first a ∷ []; adds = []; removes = [] })
  unfolding unmap_one unmap_first
  one_first first end a h k l =
      let same : record a { len = a.len - (end_of a - first) } ≡ head_of first a =
        alloc_eq _ _ refl (omega arith) refl refl refl in
      ground (arith, commits a.storage first (end_of a - first), same)

  one_middle :
      (first end : ℕ) (a : Alloc)
      → a.addr < first
      → first < end
      → end < end_of a
      → unmap_one decommit first end a
        ≡ done (record { kept = head_of first a ∷ []; adds = tail_of end a ∷ []; removes = [] })
  unfolding unmap_one unmap_first
  one_middle first end a h k l =
      let same : record a { len = a.len - (end_of a - first) } ≡ head_of first a =
        alloc_eq _ _ refl (omega arith) refl refl refl in
      ground (arith, commits a.storage first (end - first), same)

  Cuts-first :
      (first end lo : ℕ) (a : Alloc) (rest : List Alloc)
      → lo ≤ a.addr
      → a.addr < first
      → first < end_of a
      → end_of a ≤ end
      → Cuts first end (end_of a) rest
      → Cuts first end lo (a ∷ rest)
  Cuts-first first end lo a rest at h k l c = record {
    changes = record {
      kept = head_of first a ∷ c.changes.kept;
      adds = c.changes.adds;
      removes = c.changes.removes;
    };
    added = head_of first a ∷ c.added;
    run = each_more first end a rest _ c.changes (omega arith) (one_first first end a h k l) c.run;
    adds_from = AddsFrom-lower lo (end_of a) c.changes.adds (omega arith) c.adds_from;
    removes_from = KeysFrom-lower lo (end_of a) c.changes.removes (omega arith) c.removes_from;
    inserts =
        insert_all-later c.changes.adds (head_of first a) c.changes.kept c.added (end_of a)
          (omega arith) c.adds_from c.inserts;
    leaves =
        remove_all-later c.changes.removes (head_of first a) c.added (end_of a) (omega arith)
          c.removes_from
        ∙ ap (λ r. head_of first a ∷ r) c.leaves
        ∙ sym (cut_first first end a rest h k l);
  }

  Cuts-middle :
      (first end lo : ℕ) (a : Alloc) (rest : List Alloc)
      → lo ≤ a.addr
      → a.addr < first
      → first < end
      → end < end_of a
      → Apart (end_of a) rest
      → Cuts first end lo (a ∷ rest)
  Cuts-middle first end lo a rest at h k l w = record {
    changes = record { kept = head_of first a ∷ rest; adds = tail_of end a ∷ []; removes = [] };
    added = head_of first a ∷ tail_of end a ∷ rest;
    run =
        each_more first end a rest _ (unchanged rest) (omega arith) (one_middle first end a h k l)
          (each_beyond first end (end_of a) rest (omega arith) w);
    adds_from = (omega arith, tt);
    removes_from = tt;
    inserts = insert_all-second (tail_of end a) (head_of first a) (end_of a) rest (omega arith) l w;
    leaves =
        remove_all-none (head_of first a ∷ tail_of end a ∷ rest)
        ∙ ap (λ r. head_of first a ∷ tail_of end a ∷ r)
            (sym (cut_beyond first end (end_of a) rest (omega arith) (omega arith) w))
        ∙ sym (cut_middle first end a rest h k l);
  }

  -- The allocations from the one that `first` lies in.
  pub Cuts-at :
      (first end lo : ℕ) (a : Alloc) (rest : List Alloc)
      → first < end
      → a.addr ≤ first
      → first < end_of a
      → Apart lo (a ∷ rest)
      → Cuts first end lo (a ∷ rest)
  Cuts-at first end lo a rest h k l w = elim (dec_lt a.addr first) [
    | no same ↦
        let at : Cuts first end a.addr (a ∷ rest) =
          Cuts-from first end a.addr (a ∷ rest) h (omega arith) (omega arith, w.1, w.2) in
        Cuts-lower first end lo a.addr (a ∷ rest) w.0 at
    | yes behind ↦ elim (dec_lt end (end_of a)) [
      | yes middle ↦ Cuts-middle first end lo a rest w.0 behind h middle w.2
      | no over ↦
          Cuts-first first end lo a rest w.0 behind l (omega arith)
            (Cuts-from first end (end_of a) rest h (omega arith) w.2)
    ]
  ]
