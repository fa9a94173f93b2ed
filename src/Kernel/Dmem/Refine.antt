-- ===== src/Kernel/Dmem/Refine.antt =====
-- `reserve_phys` on the array does to the blocks what the search over blocks does.
use obliteration.Prelude.{
  ℕ, suc, ◌+◌, ◌-◌, ◌*◌, ◌≡◌, refl, ap, ◌∙◌, sym, ◌≤◌, ◌<◌, List, [], ◌∷◌, ◌++◌, append_assoc,
  arith, ◌==◌, Bool-cases, ==_iff, inl, inr, length, drop, length-append, length-drop, done, Flow,
  panic, overflow,
}
use obliteration.Kernel.Dmem.{MemoryInfo, take_whole, take_middle, take_end, take_start, take_range}
use obliteration.Kernel.Dmem.Arrays.{copy_within-down, copy_within-up, store-append}
use obliteration.Kernel.Dmem.Blocks.{
  Block, flat, rejoin, Holds, carve, Search, found, missing, too_small,
}

pub flat-rejoin :
    (below xs : List Block) → flat (rejoin below xs) ≡ flat (rejoin below []) ++ flat xs
unfolding flat rejoin
flat-rejoin [] xs = refl
flat-rejoin (b ∷ below) xs =
    flat-rejoin below (b ∷ xs)
    ∙ sym (append_assoc (flat (rejoin below [])) (b.start ∷ b.end ∷ []) (flat xs))
    ∙ ap (λ l. l ++ flat xs) (sym (flat-rejoin below (b ∷ [])))

pub length-rejoin : (below xs : List Block) → length (rejoin below xs) ≡ length below + length xs
unfolding rejoin
length-rejoin [] xs = omega arith
length-rejoin (b ∷ below) xs = omega (arith, length-rejoin below (b ∷ xs))

pub length-flat : (bs : List Block) → length (flat bs) ≡ 2 * length bs
unfolding flat
length-flat [] = refl
length-flat (b ∷ bs) = omega (arith, length-flat bs)

module _ (mi : MemoryInfo) (p : List ℕ) (s e : ℕ) (r : List ℕ) (i : ℕ)
    (array : mi.physmap ≡ p ++ s ∷ e ∷ r) (at : i ≡ length p) where
  take_whole_array :
      (addr : ℕ)
      → 2 ≤ mi.physmap_last
      → take_whole mi i addr
        ≡ done (
          addr,
          record mi {
            physmap = p ++ (r ++ drop (length r) (s ∷ e ∷ r));
            physmap_last = mi.physmap_last - 2;
          },
        )
  unfolding take_whole
  take_whole_array addr h = ground (arith, copy_within-down p s e r, length-append p (s ∷ e ∷ r))

  take_end_array :
      (addr stop : ℕ)
      → stop ≡ e
      → take_end mi i e addr stop ≡ done (addr, record mi { physmap = p ++ s ∷ addr ∷ r })
  unfolding take_end
  take_end_array addr stop h = ground (arith, store-append p (s ∷ e ∷ r) 1 addr)

  take_start_array :
      (addr stop : ℕ)
      → take_start mi i addr stop ≡ done (addr, record mi { physmap = p ++ stop ∷ e ∷ r })
  unfolding take_start
  take_start_array addr stop = ground (arith, store-append p (s ∷ e ∷ r) 0 stop)

take_middle_array :
    (mi : MemoryInfo) (p : List ℕ) (s e : ℕ) (m : List ℕ) (x y : ℕ) (r : List ℕ) (i addr stop : ℕ)
    → mi.physmap ≡ p ++ s ∷ e ∷ (m ++ x ∷ y ∷ r)
    → i ≡ length p
    → mi.physmap_last + 2 ≡ length p + suc (suc (length m))
    → take_middle mi i addr stop
      ≡ done (
        addr,
        record mi {
          physmap = p ++ s ∷ addr ∷ stop ∷ e ∷ (m ++ r);
          physmap_last = mi.physmap_last + 2;
        },
      )
unfolding take_middle
take_middle_array mi p s e m x y r i addr stop array at last = ground (
  arith,
  copy_within-up p s e m x y r,
  store-append p (s ∷ e ∷ s ∷ e ∷ (m ++ r)) 1 addr,
  store-append p (s ∷ addr ∷ s ∷ e ∷ (m ++ r)) 2 stop,
)

-- What the loop on the array returns, for what the search over blocks finds.
abbrev pub Agrees : MemoryInfo → Flow (ℕ × MemoryInfo) → Search → Type 0
Agrees mi result (found addr bs) =
    (mi' : MemoryInfo) × (result ≡ done (addr, mi')) × Holds mi' bs × (mi'.unk ≡ mi.unk)
Agrees mi result missing = result ≡ done (0, mi)
Agrees mi result too_small = result ≡ panic overflow

module _ (mi : MemoryInfo) (below : List Block) (b : Block) (above : List Block)
    (h : Holds mi (rejoin below (b ∷ above))) where
  -- The array in front of the block.
  abbrev pub front : List ℕ
  front = flat (rejoin below [])

  abbrev pub behind : List ℕ
  behind = flat above ++ h.unused

  pub length-front : 2 * length below ≡ length front
  length-front = omega (arith, length-flat (rejoin below []), length-rejoin below [])

  pub array_at : mi.physmap ≡ front ++ b.start ∷ b.end ∷ behind
  unfolding flat
  array_at =
      h.array
      ∙ ap (λ l. l ++ h.unused) (flat-rejoin below (b ∷ above))
      ∙ append_assoc front (b.start ∷ b.end ∷ flat above) h.unused

  -- The blocks `bs` in place of the block and those above.
  Holds-with :
      (mi' : MemoryInfo) (bs : List Block) (unused : List ℕ)
      → mi'.physmap ≡ front ++ (flat bs ++ unused)
      → length mi'.physmap ≡ 60
      → mi'.physmap_last + 2 ≡ 2 * (length below + length bs)
      → Holds mi' (rejoin below bs)
  Holds-with mi' bs unused array size last = record {
    unused = unused;
    array =
        array
        ∙ sym (append_assoc front (flat bs) unused)
        ∙ ap (λ l. l ++ unused) (sym (flat-rejoin below bs));
    size = size;
    last = omega (arith, length-rejoin below bs);
  }

  sizes : length front + suc (suc (length (flat above) + length h.unused)) ≡ 60
  sizes = omega (
    arith,
    h.size,
    ap (λ (l : List ℕ). length l) array_at,
    length-append front (b.start ∷ b.end ∷ behind),
    length-append (flat above) h.unused,
  )

  blocks_last : mi.physmap_last + 2 ≡ 2 * (length below + suc (length above))
  blocks_last = omega (arith, h.last, length-rejoin below (b ∷ above))

  whole_Agrees :
      (addr : ℕ)
      → 1 < length below + suc (length above)
      → Agrees mi (take_whole mi (2 * length below) addr) (found addr (rejoin below above))
  whole_Agrees addr more =
      let left = drop (length behind) (b.start ∷ b.end ∷ behind) in
      let mi' = record mi {
        physmap = front ++ (behind ++ left);
        physmap_last = mi.physmap_last - 2;
      } in
      (
        mi',
        take_whole_array mi front b.start b.end behind (2 * length below) array_at length-front addr
            (omega (arith, blocks_last)),
        Holds-with mi' above (h.unused ++ left)
            (ap (λ l. front ++ l) (append_assoc (flat above) h.unused left))
            (omega (
              arith,
              sizes,
              length-append front (behind ++ left),
              length-append behind left,
              length-append (flat above) h.unused,
              length-drop (length behind) (b.start ∷ b.end ∷ behind),
            ))
            (omega (arith, blocks_last)),
        refl,
      )

  end_Agrees :
      (addr stop : ℕ)
      → stop ≡ b.end
      → Agrees mi
          (take_end mi (2 * length below) b.end addr stop)
          (found addr (rejoin below (record { start = b.start; end = addr } ∷ above)))
  unfolding flat
  end_Agrees addr stop e =
      let mi' = record mi { physmap = front ++ b.start ∷ addr ∷ behind } in
      (
        mi',
        take_end_array mi front b.start b.end behind (2 * length below) array_at length-front addr
            stop e,
        Holds-with mi' (record { start = b.start; end = addr } ∷ above) h.unused refl
            (omega (
              arith,
              sizes,
              length-append front (b.start ∷ addr ∷ behind),
              length-append (flat above) h.unused,
            ))
            blocks_last,
        refl,
      )

  start_Agrees :
      (addr stop : ℕ)
      → Agrees mi
          (take_start mi (2 * length below) addr stop)
          (found addr (rejoin below (record { start = stop; end = b.end } ∷ above)))
  unfolding flat
  start_Agrees addr stop =
      let mi' = record mi { physmap = front ++ stop ∷ b.end ∷ behind } in
      (
        mi',
        take_start_array mi front b.start b.end behind (2 * length below) array_at length-front addr
            stop,
        Holds-with mi' (record { start = stop; end = b.end } ∷ above) h.unused refl
            (omega (
              arith,
              sizes,
              length-append front (stop ∷ b.end ∷ behind),
              length-append (flat above) h.unused,
            ))
            blocks_last,
        refl,
      )

  middle_Agrees :
      (addr stop x y : ℕ) (r : List ℕ)
      → h.unused ≡ x ∷ y ∷ r
      → Agrees mi (take_middle mi (2 * length below) addr stop) (
          found addr (
            rejoin below (
              record { start = b.start; end = addr }
              ∷ record { start = stop; end = b.end }
              ∷ above)))
  unfolding flat
  middle_Agrees addr stop x y r e =
      let mi' = record mi {
        physmap = front ++ b.start ∷ addr ∷ stop ∷ b.end ∷ (flat above ++ r);
        physmap_last = mi.physmap_last + 2;
      } in
      (
        mi',
        take_middle_array mi front b.start b.end (flat above) x y r (2 * length below) addr stop
            (array_at ∙ ap (λ u. front ++ b.start ∷ b.end ∷ (flat above ++ u)) e) length-front
            (omega (arith, blocks_last, length-front, length-flat above)),
        Holds-with mi'
            (record { start = b.start; end = addr } ∷ record { start = stop; end = b.end } ∷ above)
            r refl
            (omega (
              arith,
              sizes,
              ap (λ (l : List ℕ). length l) e,
              length-append front (b.start ∷ addr ∷ stop ∷ b.end ∷ (flat above ++ r)),
              length-append (flat above) r,
            ))
            (omega (arith, blocks_last)),
        refl,
      )

  two_unused :
      length below + suc (length above) < 30
      → (x : ℕ) × (y : ℕ) × (r : List ℕ) × (h.unused ≡ x ∷ y ∷ r)
  two_unused few = split h.unused (omega (arith, sizes, length-front, length-flat above))
    where
      split : (u : List ℕ) → 2 ≤ length u → (x : ℕ) × (y : ℕ) × (r : List ℕ) × (u ≡ x ∷ y ∷ r)
      split [] k = absurd (omega arith)
      split (x ∷ []) k = absurd (omega arith)
      split (x ∷ y ∷ r) k = (x, y, r, refl)

  -- The four ways to take a range are the ways to carve it out of the block.
  pub take_range-Agrees :
      (addr stop : ℕ)
      → 1 < length below + suc (length above)
      → length below + suc (length above) < 30
      → Agrees mi
          (take_range mi (2 * length below) b.start b.end addr stop)
          (found addr (rejoin below (carve b addr stop above)))
  unfolding take_range carve
  take_range-Agrees addr stop more few =
      let (x, y, r, e) = two_unused few in
      elim (Bool-cases (addr == b.start)) [
        | inl low ↦ elim (Bool-cases (stop == b.end)) [
          | inl high ↦ rw (low, high) (whole_Agrees addr more)
          | inr high ↦ rw (low, high) (start_Agrees addr stop)
        ]
        | inr low ↦ elim (Bool-cases (stop == b.end)) [
          | inl high ↦ rw (low, high) (end_Agrees addr stop ((==_iff stop b.end).0 high))
          | inr high ↦ rw (low, high) (middle_Agrees addr stop x y r e)
        ]
      ]
