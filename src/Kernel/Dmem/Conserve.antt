-- ===== src/Kernel/Dmem/Conserve.antt =====
-- What a reservation leaves: no address is lost or handed out twice, the range is aligned, and the
-- blocks stay in order.
use native.Mathlib.Nat.{mul-mod_right, div-add-mod, le-div_iff_mul-le, mul-le-mul_left}
use obliteration.Prelude.{
  ℕ, zero, suc, ◌+◌, ◌-◌, ◌*◌, ◌/◌, ◌%◌, ◌≡◌, ap, ◌∙◌, ◌≤◌, ◌<◌, List, [], ◌∷◌, arith, leb, ltb,
  ltb_false→le, leb→le, Bool-cases, inl, inr, if◌then◌else◌, ◌&&◌,
}
use obliteration.Kernel.Dmem.Blocks.{
  Block, rejoin, carve, highest, Search, found, missing, too_small, search_blocks,
}

-- How often the ranges of a list cover an address.
abbrev pub covers : Block → ℕ → ℕ
covers b a = if leb b.start a && ltb a b.end then 1 else 0

abbrev pub hits : List Block → ℕ → ℕ
hits [] a = 0
hits (b ∷ bs) a = covers b a + hits bs a

pub hits-rejoin :
    (below above : List Block) (a : ℕ) → hits (rejoin below above) a ≡ hits below a + hits above a
unfolding rejoin
hits-rejoin [] above a = omega arith
hits-rejoin (b ∷ below) above a = omega (arith, hits-rejoin below (b ∷ above) a)

hits-carve :
    (b : Block) (addr stop : ℕ) (above : List Block) (a : ℕ)
    → b.start ≤ addr
    → addr ≤ stop
    → stop ≤ b.end
    → hits (carve b addr stop above) a + covers (record { start = addr; end = stop }) a
      ≡ covers b a + hits above a
unfolding carve
hits-carve b addr stop above a h k l = ground arith

-- The range from `addr` is aligned, and the addresses of `bs` are those of `bs'` and of the range.
pub record Takes (size align : ℕ) (bs : List Block) (addr : ℕ) (bs' : List Block) : Type 0 where
  pub aligned : addr % align ≡ 0
  pub split :
      (a : ℕ) → hits bs' a + covers (record { start = addr; end = addr + size }) a ≡ hits bs a

abbrev pub IfFound : (ℕ → List Block → Type 0) → Search → Type 0
IfFound P (found addr bs) = P addr bs
IfFound P missing = Unit {0}
IfFound P too_small = Unit {0}

rounded : (x align : ℕ) → (x - x % align) % align ≡ 0
rounded x align = ap (λ t. t % align) multiple ∙ mul-mod_right align (x / align)
  where
    multiple : x - x % align ≡ align * (x / align)
    multiple = omega (arith, div-add-mod x align)

highest_aligned : (b : Block) (size align : ℕ) → highest b size align % align ≡ 0
unfolding highest
highest_aligned b size align = rounded (b.end - size) align

highest_room : (b : Block) (size align : ℕ) → size ≤ b.end → highest b size align + size ≤ b.end
unfolding highest
highest_room b size align h = omega arith

-- A search that finds a range takes it, aligned, and nothing else.
pub search_blocks-Takes :
    (size align : ℕ) (below above : List Block)
    → IfFound (Takes size align (rejoin below above)) (search_blocks size align below above)
unfolding search_blocks rejoin
search_blocks-Takes size align [] above = tt
search_blocks-Takes size align (b ∷ below) above = elim (Bool-cases (ltb b.end size)) [
  | inl small ↦ rw small tt
  | inr big ↦ elim (Bool-cases (leb b.start (highest b size align))) [
    | inl fits ↦
        rw (big, fits)
          (record {
            aligned = highest_aligned b size align;
            split = λ a. split a (ltb_false→le _ _ big) (leb→le _ _ fits);
          })
    | inr misses ↦ rw (big, misses) (search_blocks-Takes size align below (b ∷ above))
  ]
]
  where
    at : ℕ
    at = highest b size align

    split :
        (a : ℕ)
        → size ≤ b.end
        → b.start ≤ at
        → hits (rejoin below (carve b at (at + size) above)) a
            + covers (record { start = at; end = at + size }) a
          ≡ hits (rejoin below (b ∷ above)) a
    split a room low = omega (
      arith,
      hits-rejoin below (carve b at (at + size) above) a,
      hits-rejoin below (b ∷ above) a,
      hits-carve b at (at + size) above a low (omega arith) (highest_room b size align room),
    )

-- Blocks from `low` on: none is empty, and each ends where the next starts or below.
abbrev pub Chain : ℕ → List Block → Type 0
Chain low [] = Unit {0}
Chain low (b ∷ bs) = (low ≤ b.start) × (b.start < b.end) × Chain b.end bs

Chain-lower : (low low' : ℕ) (bs : List Block) → low' ≤ low → Chain low bs → Chain low' bs
Chain-lower low low' [] h c = tt
Chain-lower low low' (b ∷ bs) h c = (omega arith, c.1, c.2)

Chain-rejoin :
    (below xs ys : List Block) (low : ℕ)
    → ((l : ℕ) → Chain l xs → Chain l ys)
    → Chain low (rejoin below xs)
    → Chain low (rejoin below ys)
unfolding rejoin
Chain-rejoin [] xs ys low f c = f low c
Chain-rejoin (b ∷ below) xs ys low f c =
    Chain-rejoin below (b ∷ xs) (b ∷ ys) low (λ l d. (d.0, d.1, f b.end d.2)) c

Chain-carve :
    (b : Block) (addr stop : ℕ) (above : List Block) (l : ℕ)
    → b.start ≤ addr
    → addr < stop
    → stop ≤ b.end
    → Chain l (b ∷ above)
    → Chain l (carve b addr stop above)
unfolding carve
Chain-carve b addr stop above l h k m c =
    ground
      (arith, Chain-lower b.end addr above, Chain-lower b.end l above, Chain-lower b.end stop above)

-- A reservation leaves blocks in order.
pub search_blocks-Chain :
    (size align : ℕ) (below above : List Block)
    → 0 < size
    → Chain 0 (rejoin below above)
    → IfFound (λ addr bs. Chain 0 bs) (search_blocks size align below above)
unfolding search_blocks rejoin
search_blocks-Chain size align [] above pos c = tt
search_blocks-Chain size align (b ∷ below) above pos c = elim (Bool-cases (ltb b.end size)) [
  | inl small ↦ rw small tt
  | inr big ↦ elim (Bool-cases (leb b.start (highest b size align))) [
    | inl fits ↦
        rw (big, fits)
          (Chain-rejoin below (b ∷ above) (carve b at (at + size) above) 0
            (λ l.
              Chain-carve b at (at + size) above l (leb→le _ _ fits) (omega arith)
                (highest_room b size align (ltb_false→le _ _ big)))
            c)
    | inr misses ↦ rw (big, misses) (search_blocks-Chain size align below (b ∷ above) pos c)
  ]
]
  where
    at : ℕ
    at = highest b size align

-- No aligned range of `size` bytes lies in one of the blocks.
abbrev pub NoRoom : ℕ → ℕ → List Block → Type 0
NoRoom size align [] = Unit {0}
NoRoom size align (b ∷ bs) =
    ((a : ℕ) → a % align ≡ 0 → b.start ≤ a → ¬ (a + size ≤ b.end)) × NoRoom size align bs

-- Rounding down to a multiple gives the greatest one.
multiple_below : (x align a : ℕ) → a % align ≡ 0 → a ≤ x → a ≤ x - x % align
multiple_below x zero a h k = omega arith
multiple_below x (suc n) a h k =
    omega (arith, div-add-mod a (suc n), div-add-mod x (suc n), mul-le-mul_left (suc n) fewer)
  where
    fewer : a / suc n ≤ x / suc n
    fewer = (le-div_iff_mul-le (omega arith)).1 (omega (arith, div-add-mod a (suc n)))

highest_max :
    (b : Block) (size align a : ℕ) → a % align ≡ 0 → a + size ≤ b.end → a ≤ highest b size align
unfolding highest
highest_max b size align a h k = multiple_below (b.end - size) align a h (omega arith)

-- A search that finds nothing has seen no block with room.
pub search_blocks-NoRoom :
    (size align : ℕ) (below above : List Block)
    → search_blocks size align below above ≡ missing
    → NoRoom size align below
unfolding search_blocks
search_blocks-NoRoom size align [] above e = tt
search_blocks-NoRoom size align (b ∷ below) above e = (
  λ a h k room. ground (arith, highest_max b size align a),
  search_blocks-NoRoom size align below (b ∷ above) (ground arith),
)
