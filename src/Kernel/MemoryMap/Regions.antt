-- ===== src/Kernel/MemoryMap/Regions.antt =====
-- What the loop makes of the map: pairs in ascending order, which cover the addresses of the entries.
use obliteration.Prelude.{
  ℕ, suc, ◌+◌, ◌≡◌, ◌≤◌, ◌<◌, refl, sym, ◌∙◌, subst, max, true, false, List, [], ◌∷◌, length, ltb,
  ◌==◌, arith, Bool-cases, inl, inr, add64, Ensures, Ensures-bind, add64-done,
}
use obliteration.Kernel.Dmem.Blocks.{Block, rejoin}
use obliteration.Kernel.Dmem.Conserve.{covers, hits, hits-rejoin}
use obliteration.Kernel.MemoryMap.{
  PhysMap, Added, added, ignored, full, append_region, widen_previous, widen_next, add_region,
}

-- Pairs in ascending order from `low` on. Only a pair of zeros is empty.
abbrev pub Ascends : ℕ → List Block → Type 0
Ascends low [] = Unit {0}
Ascends low (b ∷ bs) = (low ≤ b.start) × (b.start < max 1 b.end) × Ascends b.end bs

Ascends-rejoin :
    (below xs ys : List Block) (low : ℕ)
    → ((l : ℕ) → Ascends l xs → Ascends l ys)
    → Ascends low (rejoin below xs)
    → Ascends low (rejoin below ys)
unfolding rejoin
Ascends-rejoin [] xs ys low f c = f low c
Ascends-rejoin (b ∷ below) xs ys low f c =
    Ascends-rejoin below (b ∷ xs) (b ∷ ys) low (λ l d. (d.0, d.1, f b.end d.2)) c

-- What an entry does to the pairs `bs`: they cover the entry's addresses besides, or one of them covers an
-- address of the entry, or there are 30 of them.
abbrev pub Result : PhysMap → List Block → Added → Type 0
Result m bs (added bs') =
    Ascends 0 bs'
    × (length bs' ≤ 30)
    × ((x : ℕ)
        → hits bs' x ≡ hits bs x + covers (record { start = m.base; end = m.base + m.len }) x)
Result m bs (ignored bs') =
    (bs' ≡ bs) × ((x : ℕ) × (1 ≤ hits bs x) × (m.base ≤ x) × (x < m.base + m.len))
Result m bs (full bs') = (bs' ≡ bs) × (length bs ≡ 30)

-- The nearest pair below ends in front of the entry.
abbrev Ended : List Block → ℕ → Type 0
Ended [] base = Unit {0}
Ended (p ∷ below) base = p.end ≤ base

-- The pair above starts behind the entry.
abbrev Starts : List Block → ℕ → Type 0
Starts [] to = Unit {0}
Starts (b ∷ above) to = to ≤ b.start

length-rejoin :
    (below above : List Block) → length (rejoin below above) ≡ length below + length above
unfolding rejoin
length-rejoin [] above = omega arith
length-rejoin (b ∷ below) above = length-rejoin below (b ∷ above) ∙ omega arith

-- A pair of the map, and what is above it.
Ascends-pair :
    (below above : List Block) (p : Block) (low : ℕ)
    → Ascends low (rejoin below (p ∷ above))
    → (p.start < max 1 p.end) × Ascends p.end above
unfolding rejoin
Ascends-pair [] above p low c = (c.1, c.2)
Ascends-pair (b ∷ below) above p low c =
    let d = Ascends-pair below (p ∷ above) b low c in (d.1.1, d.1.2)

Ascends-Starts :
    (low to : ℕ) (above : List Block) → Starts above to → Ascends low above → Ascends to above
Ascends-Starts low to [] s c = tt
Ascends-Starts low to (b ∷ above) s c = (s, c.1, c.2)

module _ (m : PhysMap) (some_bytes : 0 < m.len) where
  -- A pair that is put between `below` and `above`.
  put_between :
      (below above new : List Block)
      → ((l : ℕ) → l ≤ m.base → Ascends l above → Ascends l new)
      → Ended below m.base
      → Ascends 0 (rejoin below above)
      → Ascends 0 (rejoin below new)
  unfolding rejoin
  put_between [] above new f e c = f 0 (omega arith) c
  put_between (p ∷ below) above new f e c =
      Ascends-rejoin below (p ∷ above) (p ∷ new) 0 (λ l d. (d.0, d.1, f p.end e d.2)) c

  -- One pair takes the place of another, or is new, and covers the entry besides.
  covers_more :
      (below above new : List Block)
      → ((x : ℕ)
          → hits new x ≡ hits above x + covers (record { start = m.base; end = m.base + m.len }) x)
      → (x : ℕ)
      → hits (rejoin below new) x
        ≡ hits (rejoin below above) x + covers (record { start = m.base; end = m.base + m.len }) x
  covers_more below above new h x =
      omega (arith, hits-rejoin below new x, hits-rejoin below above x, h x)

  room_left :
      (below : List Block)
      → length below + 0 ≤ 30
      → (length below + 0 == 30) ≡ false
      → length below < 30
  room_left below few room = ground (arith, few, room)

  append_region-Result :
      (below above : List Block)
      → Ended below m.base
      → length below + length above ≤ 30
      → Ascends 0 (rejoin below above)
      → Ensures (Result m (rejoin below above)) (append_region m below above)
  unfolding append_region
  append_region-Result below [] e few c = elim (Bool-cases (length below + 0 == 30)) [
    | inl all ↦ rw all (refl, length-rejoin below [] ∙ ground (arith, all))
    | inr room ↦ rw room (
        Ensures-bind (Result m (rejoin below [])) (add64 m.base m.len) _ λ to h.
          let t = add64-done m.base m.len to h in
          (
            put_between below [] ((record { start = m.base; end = to }) ∷ [])
                (λ l k d. (k, omega arith, tt)) e c,
            omega (
              arith,
              length-rejoin below ((record { start = m.base; end = to }) ∷ []),
              room_left below few room,
            ),
            covers_more below [] ((record { start = m.base; end = to }) ∷ [])
                (λ x. ground (arith, t)),
          ))
  ]
  append_region-Result below (b ∷ rest) e few c =
      elim (Bool-cases (length below + suc (length rest) == 30)) [
        | inl all ↦ rw all (refl, length-rejoin below (b ∷ rest) ∙ ground (arith, all))
        | inr room ↦ rw room tt
      ]

  widen_previous-Result :
      (below above : List Block)
      → Ended below m.base
      → Starts above (m.base + m.len)
      → length below + length above ≤ 30
      → Ascends 0 (rejoin below above)
      → Ensures (Result m (rejoin below above)) (widen_previous m below above)
  unfolding widen_previous rejoin
  widen_previous-Result [] above e s few c = append_region-Result [] above e few c
  widen_previous-Result (p ∷ below) above e s few c = elim (Bool-cases (m.base == p.end)) [
    | inr apart ↦ rw apart (append_region-Result (p ∷ below) above e few c)
    | inl touches ↦ rw touches (
        Ensures-bind (Result m (rejoin below (p ∷ above))) (add64 m.base m.len) _ λ to h.
          let t = add64-done m.base m.len to h in
          let wide : Block = record { start = p.start; end = to } in
          let pair = Ascends-pair below above p 0 c in
          (
            Ascends-rejoin below (p ∷ above) (wide ∷ above) 0
                (λ l d. (
                  d.0,
                  ground (arith, t, touches, d.1),
                  Ascends-Starts p.end to above (subst (Starts above) (sym t) s) pair.1,
                ))
                c,
            omega (arith, length-rejoin below (wide ∷ above), few),
            covers_more below (p ∷ above) (wide ∷ above) (λ x. ground (arith, t, touches, pair.0)),
          ))
  ]

  widen_next-Result :
      (below above : List Block)
      → Ended below m.base
      → Starts above (m.base + m.len)
      → length below + length above ≤ 30
      → Ascends 0 (rejoin below above)
      → Ensures (Result m (rejoin below above)) (widen_next m below above)
  unfolding widen_next
  widen_next-Result below [] e s few c = widen_previous-Result below [] e s few c
  widen_next-Result below (b ∷ above) e s few c =
      Ensures-bind (Result m (rejoin below (b ∷ above))) (add64 m.base m.len) _ λ to h.
        elim (Bool-cases (to == b.start)) [
          | inr apart ↦ rw apart (widen_previous-Result below (b ∷ above) e s few c)
          | inl touches ↦
              let t = add64-done m.base m.len to h in
              let wide : Block = record { start = m.base; end = b.end } in
              let pair = Ascends-pair below above b 0 c in
              rw touches (
                put_between below (b ∷ above) (wide ∷ above)
                    (λ l k d. (k, ground (arith, t, touches, pair.0, some_bytes), pair.1)) e c,
                omega (arith, length-rejoin below (wide ∷ above), few),
                covers_more below (b ∷ above) (wide ∷ above)
                    (λ x. ground (arith, t, touches, pair.0)),
              )
        ]

  add_region-Result_from :
      (below above : List Block)
      → Ended below m.base
      → length below + length above ≤ 30
      → Ascends 0 (rejoin below above)
      → Ensures (Result m (rejoin below above)) (add_region m below above)
  unfolding add_region rejoin
  add_region-Result_from below [] e few c = widen_next-Result below [] e tt few c
  add_region-Result_from below (b ∷ above) e few c = elim (Bool-cases (ltb m.base b.end)) [
    | inr behind ↦
        rw behind
          (add_region-Result_from (b ∷ below) above (ground (arith, behind)) (omega arith) c)
    | inl here ↦ rw here (
        Ensures-bind (Result m (rejoin below (b ∷ above))) (add64 m.base m.len) _ λ to h.
          let t = add64-done m.base m.len to h in
          elim (Bool-cases (ltb b.start to)) [
            | inr clear ↦
                rw clear (widen_next-Result below (b ∷ above) e (ground (arith, clear, t)) few c)
            | inl overlaps ↦
                let pair = Ascends-pair below above b 0 c in
                rw overlaps (
                  refl,
                  (
                    max m.base b.start,
                    hit below above b pair.0 here,
                    omega arith,
                    ground (arith, overlaps, t, some_bytes),
                  ),
                )
          ])
  ]
    where
      hit :
          (below above : List Block) (b : Block)
          → b.start < max 1 b.end
          → ltb m.base b.end ≡ true
          → 1 ≤ hits (rejoin below (b ∷ above)) (max m.base b.start)
      hit below above b p h = ground (arith, hits-rejoin below (b ∷ above) (max m.base b.start))

-- An entry with some bytes, on pairs in ascending order, of which there are 30 at most: where the addition
-- does not overflow and the source does not come to its `todo!()`, either the pairs are in order still and
-- cover, address by address, what they covered and the entry; or one address at least is both in a pair and in the
-- entry, and nothing changes; or there are 30 pairs, and nothing changes.
pub add_region-Result :
    (m : PhysMap) (bs : List Block)
    → 0 < m.len
    → length bs ≤ 30
    → Ascends 0 bs
    → Ensures (Result m bs) (add_region m [] bs)
unfolding rejoin
add_region-Result m bs some_bytes few c =
    add_region-Result_from m some_bytes [] bs tt (omega arith) c
