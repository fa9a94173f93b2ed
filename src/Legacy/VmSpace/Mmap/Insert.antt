-- ===== src/Legacy/VmSpace/Mmap/Insert.antt =====
-- legacy/src/vm/vm.rs: a new allocation in the map, and what the addresses stand for then.
use obliteration.Prelude.{
  ℕ, ◌≡◌, ◌<◌, ◌≤◌, true, false, some, List, [], ◌∷◌, if◌then◌else◌, arith, dec_lt,
}
use obliteration.Legacy.VmSpace.{Alloc, end_of, insert}
use obliteration.Legacy.VmSpace.Cut.{Apart}
use obliteration.Legacy.VmSpace.Edit.{insert_first, insert_later}
use obliteration.Legacy.VmSpace.Start.{covers, covered}
use obliteration.Legacy.VmSpace.Lookup.{page_of, page_at, page_at-cons}

-- No address of the range is in an allocation.
abbrev pub Free : List Alloc → ℕ → ℕ → Type 0
Free allocs from to = (x : ℕ) → from ≤ x → x < to → covered allocs x ≡ false

covered-head : (b : Alloc) (rest : List Alloc) → 0 < b.len → covered (b ∷ rest) b.addr ≡ true
unfolding covered
covered-head b rest h = ground arith

covered-inside :
    (b : Alloc) (rest : List Alloc) (x : ℕ)
    → b.addr ≤ x
    → x < end_of b
    → covered (b ∷ rest) x ≡ true
unfolding covered
covered-inside b rest x h k = ground arith

covered-tail :
    (b : Alloc) (rest : List Alloc) (x : ℕ) → covered (b ∷ rest) x ≡ false → covered rest x ≡ false
unfolding covered
covered-tail b rest x h = ground (arith, h)

-- The insertion succeeds.
pub record Inserted (lo : ℕ) (a : Alloc) (allocs : List Alloc) : Type 0 where
  pub after : List Alloc
  pub run : insert a allocs ≡ some after
  pub ordered : Apart lo after
  pub pages :
      (x : ℕ) → page_at after x ≡ (if covers a x then some (page_of a) else page_at allocs x)

Inserted-first :
    (lo : ℕ) (a : Alloc) (allocs : List Alloc)
    → lo ≤ a.addr
    → 0 < a.len
    → Apart (end_of a) allocs
    → Inserted lo a allocs
Inserted-first lo a allocs h pos w = record {
  after = a ∷ allocs;
  run = insert_first a (end_of a) allocs (omega arith) w;
  ordered = (h, pos, w);
  pages = page_at-cons a allocs;
}

-- An allocation in front of the new one.
Inserted-later :
    (lo : ℕ) (a b : Alloc) (rest : List Alloc)
    → lo ≤ b.addr
    → 0 < b.len
    → end_of b ≤ a.addr
    → Inserted (end_of b) a rest
    → Inserted lo a (b ∷ rest)
Inserted-later lo a b rest h pos front i = record {
  after = b ∷ i.after;
  run = insert_later a b rest i.after (omega arith) i.run;
  ordered = (h, pos, i.ordered);
  pages = λ x. ground (arith, page_at-cons b i.after x, page_at-cons b rest x, i.pages x);
}

pub insert-Inserted :
    (lo : ℕ) (a : Alloc) (allocs : List Alloc)
    → lo ≤ a.addr
    → 0 < a.len
    → Apart lo allocs
    → Free allocs a.addr (end_of a)
    → Inserted lo a allocs
insert-Inserted lo a [] h pos w free = Inserted-first lo a [] h pos tt
insert-Inserted lo a (b ∷ rest) h pos w free = elim (dec_lt a.addr b.addr) [
  | yes front ↦ elim (dec_lt b.addr (end_of a)) [
    | yes inside ↦ ground (arith, free b.addr (omega arith) inside, covered-head b rest w.1)
    | no apart ↦ Inserted-first lo a (b ∷ rest) h pos (omega arith, w.1, w.2)
  ]
  | no behind ↦ elim (dec_lt a.addr (end_of b)) [
    | yes inside ↦ ground (
      arith,
      free a.addr (omega arith) (omega arith),
      covered-inside b rest a.addr (omega arith) inside,
    )
    | no apart ↦ Inserted-later lo a b rest w.0 w.1 (omega arith) (
        insert-Inserted (end_of b) a rest (omega arith) pos w.2
          (λ x low high. covered-tail b rest x (free x low high)))
  ]
]
