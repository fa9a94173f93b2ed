-- ===== src/Kernel/Dmem/Search.antt =====
-- The loop of `reserve_phys`, block by block, against the search over blocks.
use obliteration.Prelude.{
  ℕ, zero, suc, ◌+◌, ◌-◌, ◌*◌, ◌^◌, ◌%◌, ◌≡◌, refl, ap, ◌≤◌, ◌<◌, List, [], ◌∷◌, arith, tests,
  ltb→lt, leb, ltb, Bool-cases, inl, inr, length, done, Flow, panic, overflow, ◌>>=◌, index,
  bit_and, none, some,
}
use native.Mathlib.Nat.{one-le-pow}
use obliteration.Prelude.Bits.{bit_and-align_down}
use obliteration.Prelude.Segments.{get_elem?-append}
use obliteration.Kernel.Dmem.{MemoryInfo, negated, take_range, try_block, reserve_from}
use obliteration.Kernel.Dmem.Blocks.{Block, rejoin, Holds, carve, highest, found, search_blocks}
use obliteration.Kernel.Dmem.Refine.{
  Agrees, front, behind, array_at, length-front, take_range-Agrees,
}

-- An alignment is a power of two below 2 ^ 64.
pub record IsAlignment (align : ℕ) : Type 0 where
  pub bits : ℕ
  pub rest : ℕ
  pub power : align ≡ 2 ^ bits
  pub fits : 2 ^ rest * 2 ^ bits ≡ 2 ^ 64

pub negated_mask :
    (x align : ℕ) → IsAlignment align → x < 2 ^ 64 → bit_and x (negated align) ≡ x - x % align
negated_mask x align a h =
    rw (a.power, mask) (bit_and-align_down a.bits a.rest x (omega (arith, a.fits)))
  where
    whole : 2 ^ a.rest ≡ 2 ^ a.rest - 1 + 1
    whole = omega (arith, one-le-pow a.rest 2)

    mask : 2 ^ 64 - 2 ^ a.bits ≡ (2 ^ a.rest - 1) * 2 ^ a.bits
    mask = omega (arith, a.fits, ap (λ (t : ℕ). t * 2 ^ a.bits) whole)

module _ (mi : MemoryInfo) (size align : ℕ) (aligned : IsAlignment align) (below : List Block)
    (b : Block) (above : List Block) (h : Holds mi (rejoin below (b ∷ above))) where
  abbrev at : ℕ
  at = 2 * length below

  read_start : index mi.physmap at ≡ done b.start
  read_start = ground (
    arith,
    array_at mi below b above h,
    length-front mi below b above h,
    get_elem?-append (front mi below b above h) (b.start ∷ b.end ∷ behind mi below b above h) 0,
  )

  read_end : index mi.physmap (at + 1) ≡ done b.end
  read_end = ground (
    arith,
    array_at mi below b above h,
    length-front mi below b above h,
    get_elem?-append (front mi below b above h) (b.start ∷ b.end ∷ behind mi below b above h) 1,
  )

  try_block_small : b.end < size → try_block mi size align at ≡ panic overflow
  unfolding try_block
  try_block_small k = ground (arith, read_start, read_end)

  try_block_misses :
      b.end < 2 ^ 64
      → size ≤ b.end
      → highest b size align < b.start
      → try_block mi size align at ≡ done none
  unfolding try_block highest
  try_block_misses lim k m =
      ground (arith, read_start, read_end, negated_mask (b.end - size) align aligned)

  try_block_fits :
      b.end < 2 ^ 64
      → size ≤ b.end
      → b.start ≤ highest b size align
      → try_block mi size align at ≡ (
          take_range mi at b.start b.end (highest b size align) (highest b size align + size)
          >>= λ r. done (some r))
  unfolding try_block highest
  try_block_fits lim k m =
      ground (arith, read_start, read_end, negated_mask (b.end - size) align aligned)

-- Every block ends where a 64-bit address can say.
abbrev pub Ends64 : List Block → Type 0
Ends64 [] = Unit {0}
Ends64 (b ∷ bs) = (b.end < 2 ^ 64) × Ends64 bs

module _ (mi : MemoryInfo) (size align : ℕ) (aligned : IsAlignment align) where
  taken :
      (b : Block) (below above : List Block) (lower : Flow (ℕ × MemoryInfo))
      → Holds mi (rejoin below (b ∷ above))
      → 1 < length below + suc (length above)
      → length below + suc (length above) < 30
      → b.end < 2 ^ 64
      → size ≤ b.end
      → b.start ≤ highest b size align
      → Agrees mi
          (try_block mi size align (2 * length below)
            >>= (λ r. elim r [ some hit ↦ done hit | none ↦ lower ]))
          (found
            (highest b size align)
            (rejoin below (carve b (highest b size align) (highest b size align + size) above)))
  taken b below above lower h more few lim room fits =
      let (mi', result, holds, same) =
        take_range-Agrees mi below b above h (highest b size align) (highest b size align + size)
          more few in
      (
        mi',
        rw (try_block_fits mi size align aligned below b above h lim room fits, result),
        holds,
        same,
      )

  -- One round of the loop, given what the rounds below come to.
  round :
      (b : Block) (below above : List Block) (lower : Flow (ℕ × MemoryInfo))
      → Holds mi (rejoin below (b ∷ above))
      → 1 < length below + suc (length above)
      → length below + suc (length above) < 30
      → b.end < 2 ^ 64
      → Agrees mi lower (search_blocks size align below (b ∷ above))
      → Agrees mi
          (try_block mi size align (2 * length below)
            >>= (λ r. elim r [ some hit ↦ done hit | none ↦ lower ]))
          (search_blocks size align (b ∷ below) above)
  unfolding search_blocks
  round b below above lower h more few lim ih = elim (Bool-cases (ltb b.end size)) [
    | inl small ↦
        rw (small, try_block_small mi size align aligned below b above h (ltb→lt _ _ small)) refl
    | inr big ↦ elim (Bool-cases (leb b.start (highest b size align))) [
      | inl fits ↦
          rw (big, fits) (taken b below above lower h more few lim (omega tests) (omega tests))
      | inr misses ↦
          rw
            (
              big,
              misses,
              try_block_misses mi size align aligned below b above h lim (omega tests)
                  (omega tests),
            )
            ih
    ]
  ]

  -- The loop from the block with number `length below` down.
  pub scan :
      (below : List Block) (b : Block) (above : List Block) (i : ℕ)
      → i ≡ 2 * length below
      → Holds mi (rejoin below (b ∷ above))
      → 1 < length below + suc (length above)
      → length below + suc (length above) < 30
      → Ends64 (b ∷ below)
      → Agrees mi (reserve_from mi size align i) (search_blocks size align (b ∷ below) above)
  unfolding reserve_from
  scan [] b above zero e h more few lim =
      round b [] above (done (0, mi)) h more few lim.0 (unfold search_blocks in refl)
  scan [] b above (suc i) e h more few lim = absurd (omega arith)
  scan (c ∷ below) b above zero e h more few lim = absurd (omega arith)
  scan (c ∷ below) b above (suc zero) e h more few lim = absurd (omega arith)
  scan (c ∷ below) b above (suc (suc i)) e h more few lim = rw e (
      round b (c ∷ below) above (reserve_from mi size align i) h more few lim.0 (
        scan below c (b ∷ above) i (omega arith) (unfold rejoin in h) (omega arith) (omega arith)
          lim.1))
