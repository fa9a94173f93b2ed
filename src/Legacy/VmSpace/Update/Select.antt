-- ===== src/Legacy/VmSpace/Update/Select.antt =====
-- legacy/src/vm/vm.rs: the first loop of `update`, which marks the targets or meets a gap.
use obliteration.Prelude.{
  ℕ, ◌≡◌, ◌≢◌, ◌<◌, ◌≤◌, refl, ◌⊎◌, inl, inr, Bool, true, false, not, ◌&&◌, List, [], ◌∷◌, ◌==◌,
  leb, Result, ok, err, arith, dec_le, ℕ_discrete, map, Bool-cases,
}
use obliteration.Legacy.VmSpace.{Alloc, end_of}
use obliteration.Legacy.VmSpace.Cut.{Apart}
use obliteration.Legacy.VmSpace.Start.{covered, covered-from}
use obliteration.Legacy.VmSpace.Update.{MemoryUpdateError, unmapped_addr, skipped, select}

covered-below :
    (x lo : ℕ) (allocs : List Alloc) → x < lo → Apart lo allocs → covered allocs x ≡ false
covered-below x lo allocs h w = elim (Bool-cases (covered allocs x)) [
  | inl there ↦ absurd (omega (arith, covered-from x lo allocs w there))
  | inr gap ↦ gap
]

pub covered-rest :
    (a : Alloc) (rest : List Alloc) (x : ℕ)
    → end_of a ≤ x
    → covered rest x ≡ false
    → covered (a ∷ rest) x ≡ false
unfolding covered
covered-rest a rest x h k = ground (arith, k)

pub covered-more :
    (a : Alloc) (rest : List Alloc) (x : ℕ) → covered rest x ≡ true → covered (a ∷ rest) x ≡ true
unfolding covered
covered-more a rest x h = ground (arith, h)

pub covered-first :
    (a : Alloc) (rest : List Alloc) (x : ℕ)
    → a.addr ≤ x
    → x < end_of a
    → covered (a ∷ rest) x ≡ true
unfolding covered
covered-first a rest x h k = ground arith

covered-behind :
    (a : Alloc) (rest : List Alloc) (x : ℕ)
    → end_of a ≤ x
    → covered (a ∷ rest) x ≡ true
    → covered rest x ≡ true
unfolding covered
covered-behind a rest x h k = ground (arith, k)

covered-nil : (x : ℕ) → covered [] x ≢ true
unfolding covered
covered-nil x h = cc

-- Every address of a range in front of a mapped one is mapped.
abbrev pub Contiguous : List Alloc → ℕ → ℕ → Type 0
Contiguous allocs from end =
    (x y : ℕ) → from ≤ x → x < y → y < end → covered allocs y ≡ true → covered allocs x ≡ true

-- The first address `x` of a range that is not mapped, with a mapped one behind it in the range.
pub record Gap (allocs : List Alloc) (from end x : ℕ) : Type 0 where
  pub low : from ≤ x
  pub mapped : (z : ℕ) → from ≤ z → z < x → covered allocs z ≡ true
  pub unmapped : covered allocs x ≡ false
  pub behind : ℕ
  pub later : x < behind
  pub within : behind < end
  pub again : covered allocs behind ≡ true

-- Both hold from the start of an allocation on if they do from its end on.
pub Contiguous-first :
    (a : Alloc) (rest : List Alloc) (from end : ℕ)
    → a.addr ≤ from
    → Contiguous (a ∷ rest) (end_of a) end
    → Contiguous (a ∷ rest) from end
Contiguous-first a rest from end h c x y low near far there = elim (dec_le (end_of a) x) [
  | yes behind ↦ c x y behind near far there
  | no inside ↦ covered-first a rest x (omega (arith, h, low)) (omega arith)
]

pub Gap-first :
    (a : Alloc) (rest : List Alloc) (from end x : ℕ)
    → a.addr ≤ from
    → from ≤ end_of a
    → Gap (a ∷ rest) (end_of a) end x
    → Gap (a ∷ rest) from end x
Gap-first a rest from end x h k g = record {
  low = omega (arith, k, g.low);
  mapped = λ z low below. elim (dec_le (end_of a) z) [
    | yes behind ↦ g.mapped z behind below
    | no inside ↦ covered-first a rest z (omega (arith, h, low)) (omega arith)
  ];
  unmapped = g.unmapped;
  behind = g.behind;
  later = g.later;
  within = g.within;
  again = g.again;
}

Contiguous-rest :
    (a : Alloc) (rest : List Alloc) (end : ℕ)
    → Contiguous rest (end_of a) end
    → Contiguous (a ∷ rest) (end_of a) end
Contiguous-rest a rest end c x y low near far there =
    covered-more a rest x
      (c x y low near far (covered-behind a rest y (omega (arith, low, near)) there))

Gap-rest :
    (a : Alloc) (rest : List Alloc) (end x : ℕ)
    → Gap rest (end_of a) end x
    → Gap (a ∷ rest) (end_of a) end x
Gap-rest a rest end x g = record {
  low = g.low;
  mapped = λ z low below. covered-more a rest z (g.mapped z low below);
  unmapped = covered-rest a rest x g.low g.unmapped;
  behind = g.behind;
  later = g.later;
  within = g.within;
  again = covered-more a rest g.behind g.again;
}

module _ (filter : Alloc → Bool) where
  -- The allocations in front of the end of the range, those that pass the filter being targets.
  unfoldable pub mark : ℕ → List Alloc → List (Alloc × Bool)
  mark end [] = []
  mark end (a ∷ rest) = elim (leb end a.addr) [
    | true ↦ map skipped (a ∷ rest)
    | false ↦ (a, filter a) ∷ mark end rest
  ]

  -- All targets of a range without a gap, or the start of the first gap.
  abbrev pub Selected : ℕ → ℕ → List Alloc → Result (List (Alloc × Bool)) MemoryUpdateError → Type 0
  Selected end from allocs r =
      ((r ≡ ok (mark end allocs)) × Contiguous allocs from end)
      ⊎ ((x : ℕ) × Gap allocs from end x × (r ≡ err (unmapped_addr x)))

  select-beyond :
      (end prev : ℕ) (a : Alloc) (rest : List Alloc)
      → end ≤ a.addr
      → select filter end prev (a ∷ rest) ≡ ok (mark end (a ∷ rest))
  unfolding select mark
  select-beyond end prev a rest h = ground arith

  select-gap :
      (end prev : ℕ) (a : Alloc) (rest : List Alloc)
      → a.addr < end
      → 0 < prev
      → prev ≢ a.addr
      → select filter end prev (a ∷ rest) ≡ err (unmapped_addr prev)
  unfolding select
  select-gap end prev a rest h k ne = ground (arith, ne)

  select-next :
      (end prev : ℕ) (a : Alloc) (rest : List Alloc)
      → a.addr < end
      → (prev ≡ 0) ⊎ (prev ≡ a.addr)
      → Selected end (end_of a) rest (select filter end (end_of a) rest)
      → Selected end (end_of a) (a ∷ rest) (select filter end prev (a ∷ rest))
  unfolding select mark
  select-next end prev a rest h same later =
      let inside : leb end a.addr ≡ false = ground arith in
      let joined : (not (prev == 0) && not (a.addr == prev)) ≡ false = ground (arith, same) in
      elim later [
        | inl (all, c) ↦
            inl (rw (select, mark, inside, joined, all) refl, Contiguous-rest a rest end c)
        | inr (x, gap, eq) ↦
            inr (x, Gap-rest a rest end x gap, rw (select, inside, joined, eq) refl)
      ]

  Selected-first :
      (end from : ℕ) (a : Alloc) (rest : List Alloc)
      (r : Result (List (Alloc × Bool)) MemoryUpdateError)
      → a.addr ≤ from
      → from ≤ end_of a
      → Selected end (end_of a) (a ∷ rest) r
      → Selected end from (a ∷ rest) r
  Selected-first end from a rest r h k (inl (all, c)) =
      inl (all, Contiguous-first a rest from end h c)
  Selected-first end from a rest r h k (inr (x, gap, eq)) =
      inr (x, Gap-first a rest from end x h k gap, eq)

  Gap-here :
      (end prev : ℕ) (a : Alloc) (rest : List Alloc)
      → prev < a.addr
      → a.addr < end
      → Apart prev (a ∷ rest)
      → Gap (a ∷ rest) prev end prev
  Gap-here end prev a rest h k w = record {
    low = omega arith;
    mapped = λ z low below. absurd (omega arith);
    unmapped = covered-below prev a.addr (a ∷ rest) h (omega arith, w.1, w.2);
    behind = a.addr;
    later = h;
    within = k;
    again = covered-first a rest a.addr (omega arith) (omega (arith, w.1));
  }

  Contiguous-beyond :
      (end prev : ℕ) (a : Alloc) (rest : List Alloc)
      → end ≤ a.addr
      → Apart prev (a ∷ rest)
      → Contiguous (a ∷ rest) prev end
  Contiguous-beyond end prev a rest h w x y low near far there =
      cc (there, covered-below y a.addr (a ∷ rest) (omega arith) (omega arith, w.1, w.2))

  -- From an allocation on, `prev` being where the last one ended.
  pub select-Selected :
      (end prev : ℕ) (allocs : List Alloc)
      → 0 < prev
      → Apart prev allocs
      → Selected end prev allocs (select filter end prev allocs)
  unfolding select mark
  select-Selected end prev [] h w =
      inl (refl, λ x y low near far there. absurd (covered-nil y there))
  select-Selected end prev (a ∷ rest) h w = elim (dec_le end a.addr) [
    | yes beyond ↦
        inl (select-beyond end prev a rest beyond, Contiguous-beyond end prev a rest beyond w)
    | no within ↦ elim (ℕ_discrete prev a.addr) [
      | yes same ↦ Selected-first end prev a rest _ (omega (arith, same)) (omega (arith, same)) (
          select-next end prev a rest (omega arith) (inr same)
            (select-Selected end (end_of a) rest (omega (arith, w.1)) w.2))
      | no gap ↦ inr (
        prev,
        Gap-here end prev a rest (omega (arith, w.0, gap)) (omega arith) w,
        select-gap end prev a rest (omega arith) h gap,
      )
    ]
  ]

  -- From the allocation that the range starts in.
  pub select-start :
      (end from : ℕ) (a : Alloc) (rest : List Alloc)
      → a.addr < end
      → a.addr ≤ from
      → from < end_of a
      → 0 < a.len
      → Apart (end_of a) rest
      → Selected end from (a ∷ rest) (select filter end 0 (a ∷ rest))
  select-start end from a rest h low high pos w =
      Selected-first end from a rest _ low (omega arith) (
        select-next end 0 a rest h (inl refl) (select-Selected end (end_of a) rest (omega arith) w))
