-- ===== src/Legacy/VmSpace/Update/Begin.antt =====
-- legacy/src/vm/vm.rs: `update` on the allocation that the range starts in, and on all from there.
use obliteration.Prelude.{
  ℕ, ◌-◌, ◌≡◌, ◌<◌, ◌≤◌, refl, sym, ap, ◌∙◌, Bool, true, some, List, [], ◌∷◌, arith, Flow, done,
  dec_lt, Bool-cases, inl, inr,
}
use obliteration.Legacy.VmSpace.{Alloc, end_of, insert, insert_all}
use obliteration.Legacy.VmSpace.Cut.{Apart, head_of, tail_of, alloc_eq}
use obliteration.Legacy.VmSpace.Lookup.{Apart-lower}
use obliteration.Legacy.VmSpace.Edit.{
  AddsFrom-lower, insert_first, insert_later, insert_all-later, insert_all-second,
}
use obliteration.Legacy.VmSpace.Update.{update_first, update_one}
use obliteration.Legacy.VmSpace.Update.Pieces.{renew_beyond, renew_first, renew_middle}
use obliteration.Legacy.VmSpace.Update.Each.{
  Renews, each_beyond, each_target, Renews-other, Renews-from, Renews-last, Renews-whole,
}

insert_all-step :
    (a : Alloc) (adds allocs allocs' : List Alloc)
    → insert a allocs ≡ some allocs'
    → insert_all (a ∷ adds) allocs ≡ insert_all adds allocs'
unfolding insert_all
insert_all-step a adds allocs allocs' h = ground (arith, h)

-- The first insertion goes right behind the first of the list.
insert_second :
    (a b : Alloc) (adds rest : List Alloc) (lo : ℕ)
    → b.addr < a.addr
    → a.addr < lo
    → Apart lo rest
    → insert_all (a ∷ adds) (b ∷ rest) ≡ insert_all adds (b ∷ a ∷ rest)
insert_second a b adds rest lo h k w =
    insert_all-step a adds (b ∷ rest) (b ∷ a ∷ rest)
      (insert_later a b rest (a ∷ rest) h (insert_first a lo rest k w))

module _ (filter : Alloc → Bool) (change : Alloc → Flow Alloc) (f : Alloc → Alloc)
    (runs : (a : Alloc) → change a ≡ done (f a)) (keeps_addr : (a : Alloc) → (f a).addr ≡ a.addr)
    (keeps_len : (a : Alloc) → (f a).len ≡ a.len) where
  abbrev Renewed : ℕ → ℕ → ℕ → List Alloc → Type 0
  Renewed first end lo allocs = Renews filter change f runs keeps_addr keeps_len first end lo allocs

  one_first :
      (first end : ℕ) (a : Alloc)
      → a.addr < first
      → first < end_of a
      → end_of a ≤ end
      → update_one change first end a
        ≡ done (record { kept = head_of first a ∷ []; adds = f (tail_of first a) ∷ [] })
  unfolding update_one update_first
  one_first first end a h k l =
      let same : record a { len = a.len - (end_of a - first) } ≡ head_of first a =
        alloc_eq _ _ refl (omega arith) refl refl refl in
      ground (arith, runs (tail_of first a), same)

  abbrev middle_of : ℕ → ℕ → Alloc → Alloc
  middle_of first end a = record a { addr = first; len = end - first }

  one_middle :
      (first end : ℕ) (a : Alloc)
      → a.addr < first
      → first < end
      → end < end_of a
      → update_one change first end a
        ≡ done (record {
          kept = head_of first a ∷ [];
          adds = f (middle_of first end a) ∷ tail_of end a ∷ [];
        })
  unfolding update_one update_first
  one_middle first end a h k l =
      let same : record a { len = a.len - (end_of a - first) } ≡ head_of first a =
        alloc_eq _ _ refl (omega arith) refl refl refl in
      ground (arith, runs (middle_of first end a), same)

  Renews-first :
      (first end lo : ℕ) (a : Alloc) (rest : List Alloc)
      → lo ≤ a.addr
      → filter a ≡ true
      → a.addr < first
      → first < end_of a
      → end_of a ≤ end
      → Renewed first end (end_of a) rest
      → Renewed first end lo (a ∷ rest)
  Renews-first first end lo a rest at target h k l r =
      let t_addr = keeps_addr (tail_of first a) in
      record {
        changes = record {
          kept = head_of first a ∷ r.changes.kept;
          adds = f (tail_of first a) ∷ r.changes.adds;
        };
        added = head_of first a ∷ f (tail_of first a) ∷ r.added;
        run =
            each_target filter change f runs keeps_addr keeps_len first end a rest _ r.changes
              (omega arith) target (one_first first end a h k l) r.run;
        adds_from = (
          omega (arith, t_addr),
          AddsFrom-lower lo (end_of a) r.changes.adds (omega arith) r.adds_from,
        );
        ordered =
            (at, omega arith, Apart-lower _ (end_of a) r.changes.kept (omega arith) r.ordered);
        inserts =
            insert_second (f (tail_of first a)) (head_of first a) r.changes.adds r.changes.kept
              (end_of a) (omega (arith, t_addr)) (omega (arith, t_addr)) r.ordered
            ∙ insert_all-later r.changes.adds (head_of first a)
                (f (tail_of first a) ∷ r.changes.kept) _ (end_of a) (omega arith) r.adds_from
                (insert_all-later r.changes.adds (f (tail_of first a)) r.changes.kept r.added
                  (end_of a) (omega (arith, t_addr)) r.adds_from r.inserts);
        leaves =
            ap (λ t. head_of first a ∷ f (tail_of first a) ∷ t) r.leaves
            ∙ sym (renew_first filter f first end a rest target h k l);
      }

  Renews-middle :
      (first end lo : ℕ) (a : Alloc) (rest : List Alloc)
      → lo ≤ a.addr
      → filter a ≡ true
      → a.addr < first
      → first < end
      → end < end_of a
      → Apart (end_of a) rest
      → Renewed first end lo (a ∷ rest)
  Renews-middle first end lo a rest at target h k l w =
      let m_addr = keeps_addr (middle_of first end a) in
      record {
        changes = record {
          kept = head_of first a ∷ rest;
          adds = f (middle_of first end a) ∷ tail_of end a ∷ [];
        };
        added = head_of first a ∷ f (middle_of first end a) ∷ tail_of end a ∷ rest;
        run =
            each_target filter change f runs keeps_addr keeps_len first end a rest _
              (record { kept = rest; adds = [] }) (omega arith) target
              (one_middle first end a h k l)
              (each_beyond filter change f runs keeps_addr keeps_len first end (end_of a) rest
                (omega arith) w);
        adds_from = (omega (arith, m_addr), (omega arith, tt));
        ordered = (at, omega arith, Apart-lower _ (end_of a) rest (omega arith) w);
        inserts =
            insert_second (f (middle_of first end a)) (head_of first a) (tail_of end a ∷ []) rest
              (end_of a) (omega (arith, m_addr)) (omega (arith, m_addr)) w
            ∙ insert_all-later (tail_of end a ∷ []) (head_of first a)
                (f (middle_of first end a) ∷ rest) _ end (omega arith) (omega arith, tt)
                (insert_all-second (tail_of end a) (f (middle_of first end a)) (end_of a) rest
                  (omega (arith, m_addr)) l w);
        leaves =
            ap (λ t. head_of first a ∷ f (middle_of first end a) ∷ tail_of end a ∷ t)
              (sym (renew_beyond filter f first end (end_of a) rest (omega arith) (omega arith) w))
            ∙ sym (renew_middle filter f first end a rest target h k l);
      }

  -- From the allocation that `first` lies in.
  pub Renews-at :
      (first end lo : ℕ) (a : Alloc) (rest : List Alloc)
      → first < end
      → a.addr ≤ first
      → first < end_of a
      → Apart lo (a ∷ rest)
      → Renewed first end lo (a ∷ rest)
  Renews-at first end lo a rest h k l w =
      let later =
        Renews-from filter change f runs keeps_addr keeps_len first end (end_of a) rest h
          (omega arith) w.2 in
      elim (Bool-cases (filter a)) [
        | inr other ↦
            Renews-other filter change f runs keeps_addr keeps_len first end lo a rest w.0 w.1
              (omega arith) other later
        | inl target ↦ elim (dec_lt a.addr first) [
          | yes behind ↦ elim (dec_lt end (end_of a)) [
            | yes middle ↦ Renews-middle first end lo a rest w.0 target behind h middle w.2
            | no over ↦ Renews-first first end lo a rest w.0 target behind l (omega arith) later
          ]
          | no same ↦ elim (dec_lt end (end_of a)) [
            | yes last ↦
                Renews-last filter change f runs keeps_addr keeps_len first end lo a rest w.0 target
                  (omega arith) (omega arith) last w.2
            | no whole ↦
                Renews-whole filter change f runs keeps_addr keeps_len first end lo a rest w.0 w.1
                  (omega arith) target (omega arith) (omega arith) later
          ]
        ]
      ]
