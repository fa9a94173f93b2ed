-- ===== src/Kernel/Dmem/Blocks.antt =====
-- The blocks of free physical memory that `physmap` stands for, and what a reservation does to
-- them: the highest block that has room for the aligned range gives it up.
use obliteration.Prelude.{
  ℕ, ◌+◌, ◌-◌, ◌*◌, ◌%◌, ◌≡◌, List, [], ◌∷◌, ◌++◌, ltb, leb, ◌==◌, if◌then◌else◌, length,
}
use obliteration.Kernel.Dmem.{MemoryInfo}

-- A block from `start` up to, not including, `end`.
pub record Block : Type 0 where
  pub start : ℕ
  pub end : ℕ

-- The array's form of a list of blocks.
unfoldable pub flat : List Block → List ℕ
flat [] = []
flat (b ∷ bs) = b.start ∷ b.end ∷ flat bs

-- The blocks below, the nearest first, put back in front of those above.
unfoldable pub rejoin : List Block → List Block → List Block
rejoin [] above = above
rejoin (b ∷ below) above = rejoin below (b ∷ above)

-- `mi` holds the blocks `bs`; what the array holds behind them does not matter.
pub record Holds (mi : MemoryInfo) (bs : List Block) : Type 0 where
  pub unused : List ℕ
  pub array : mi.physmap ≡ flat bs ++ unused
  pub size : length mi.physmap ≡ 60
  pub last : mi.physmap_last + 2 ≡ 2 * length bs

-- What is left of a block without the range from `addr` up to `stop`.
unfoldable pub carve : Block → ℕ → ℕ → List Block → List Block
carve b addr stop above =
    let high = if stop == b.end then above else (record { start = stop; end = b.end }) ∷ above in
    if addr == b.start then high else (record { start = b.start; end = addr }) ∷ high

-- The highest aligned address from which `size` bytes end inside the block.
unfoldable pub highest : Block → ℕ → ℕ → ℕ
highest b size align = (b.end - size) - (b.end - size) % align

-- `too_small`: a block was reached that ends below `size`.
pub data Search : Type 0 where
  found : ℕ → List Block → Search
  missing too_small : Search

unfoldable pub search_blocks : ℕ → ℕ → List Block → List Block → Search
search_blocks size align [] above = missing
search_blocks size align (b ∷ below) above =
    let addr = highest b size align in
    let lower = search_blocks size align below (b ∷ above) in
    if ltb b.end size
    then too_small
    else if leb b.start addr
    then found addr (rejoin below (carve b addr (addr + size) above))
    else lower
