-- ===== src/Kernel/Dmem/Reserve.antt =====
-- What `reserve_phys` promises to the callers in `Dmem::new`.
use mathlib.Core.Path.{subst}
use obliteration.Prelude.{
  ℕ, ◌≡◌, ◌≢◌, refl, sym, ◌<◌, List, [], ◌∷◌, arith, length, done, Flow, inl, inr, ◌⊎◌,
}
use obliteration.Kernel.Dmem.{MemoryInfo, reserve_phys}
use obliteration.Kernel.Dmem.Blocks.{
  Block, rejoin, Holds, Search, found, missing, too_small, search_blocks,
}
use obliteration.Kernel.Dmem.Refine.{Agrees, length-rejoin}
use obliteration.Kernel.Dmem.Search.{IsAlignment, Ends64, scan}
use obliteration.Kernel.Dmem.Conserve.{
  IfFound, Takes, Chain, NoRoom, search_blocks-Takes, search_blocks-Chain, search_blocks-NoRoom,
}

-- The array holds the blocks of `tops`, the highest first: at least two, so that one is left, and
-- fewer than the array has room for; all end below 2 ^ 64 and lie in ascending order.
pub record IsMap (mi : MemoryInfo) (tops : List Block) : Type 0 where
  pub holds : Holds mi (rejoin tops [])
  pub more : 1 < length tops
  pub few : length tops < 30
  pub ends : Ends64 tops
  pub order : Chain 0 (rejoin tops [])

-- On an array of two to 29 blocks in order, `reserve_phys` returns what the search from the highest
-- block down returns, and leaves the array with the blocks that the search leaves: the address
-- where a range is found, 0 and the same map where none is, and the overflow panic where a block
-- that ends below the size is reached.
pub reserve_phys_refines :
    (mi : MemoryInfo) (size align : ℕ) (tops : List Block)
    → IsAlignment align
    → IsMap mi tops
    → Agrees mi (reserve_phys mi size align) (search_blocks size align tops [])
unfolding reserve_phys rejoin
reserve_phys_refines mi size align [] al m = absurd (omega (arith, m.more))
reserve_phys_refines mi size align (b ∷ below) al m =
    scan mi size align al below b [] mi.physmap_last
      (omega (arith, m.holds.last, length-rejoin below (b ∷ []))) m.holds (omega (arith, m.more))
      (omega (arith, m.few)) m.ends

-- A reservation by its parts.
pub record Reserved (size align : ℕ) (before : List Block) (addr : ℕ) (mi' : MemoryInfo)
    : Type 0 where
  pub after : List Block
  pub holds : Holds mi' after
  pub takes : Takes size align before addr after
  pub order : Chain 0 after

module _ (mi : MemoryInfo) (size align : ℕ) (before : List Block) (addr : ℕ) (mi' : MemoryInfo)
    (a : ℕ) (bs : List Block) where
  Reserved-found :
      (result : Flow (ℕ × MemoryInfo))
      → Agrees mi result (found a bs)
      → Takes size align before a bs
      → Chain 0 bs
      → result ≡ done (addr, mi')
      → Reserved size align before addr mi'
  Reserved-found result (m, e, h, same) t c r =
      let at : a ≡ addr = cc in
      let now : m ≡ mi' = cc in
      record {
        after = bs;
        holds = subst (λ x. Holds x bs) now h;
        takes = subst (λ x. Takes size align before x bs) at t;
        order = c;
      }

module _ (mi : MemoryInfo) (size align : ℕ) (before : List Block) (addr : ℕ)
    (mi' : MemoryInfo) where
  Reserved-of_Agrees :
      (s : Search) (result : Flow (ℕ × MemoryInfo))
      → Agrees mi result s
      → IfFound (Takes size align before) s
      → IfFound (λ a bs. Chain 0 bs) s
      → result ≡ done (addr, mi')
      → addr ≢ 0
      → Reserved size align before addr mi'
  Reserved-of_Agrees (found a bs) result g t c r ne =
      Reserved-found mi size align before addr mi' a bs result g t c r
  Reserved-of_Agrees missing result e t c r ne =
      let zero_addr : 0 ≡ addr = cc in absurd (ne (sym zero_addr))
  Reserved-of_Agrees too_small result e t c r ne = cc

  -- Where no address is excluded: nothing is found and nothing changes, or it is a reservation.
  missing_or_Reserved :
      (s : Search) (result : Flow (ℕ × MemoryInfo))
      → Agrees mi result s
      → IfFound (Takes size align before) s
      → IfFound (λ a bs. Chain 0 bs) s
      → result ≡ done (addr, mi')
      → ((s ≡ missing) × (mi' ≡ mi)) ⊎ Reserved size align before addr mi'
  missing_or_Reserved (found a bs) result g t c r =
      inr (Reserved-found mi size align before addr mi' a bs result g t c r)
  missing_or_Reserved missing result e t c r = inl (refl, cc)
  missing_or_Reserved too_small result e t c r = cc

-- A reservation that returns an address other than 0 gives a multiple of the alignment, takes
-- exactly the `size` bytes from there out of the blocks, each of which covered them once more
-- before than after, and leaves the other blocks in ascending order.
pub reserve_phys_takes :
    (mi : MemoryInfo) (size align : ℕ) (tops : List Block) (addr : ℕ) (mi' : MemoryInfo)
    → IsAlignment align
    → IsMap mi tops
    → 0 < size
    → reserve_phys mi size align ≡ done (addr, mi')
    → addr ≢ 0
    → Reserved size align (rejoin tops []) addr mi'
reserve_phys_takes mi size align tops addr mi' al m pos r ne =
    Reserved-of_Agrees mi size align (rejoin tops []) addr mi' (search_blocks size align tops [])
      (reserve_phys mi size align) (reserve_phys_refines mi size align tops al m)
      (search_blocks-Takes size align tops []) (search_blocks-Chain size align tops [] pos m.order)
      r ne

-- A reservation of at least one byte that returns 0 leaves the map as it was, and then no block has
-- room for an aligned range of that size; or it has taken the range from address 0 on, as a
-- reservation that returns another address takes its own.
pub reserve_phys_fails :
    (mi : MemoryInfo) (size align : ℕ) (tops : List Block) (mi' : MemoryInfo)
    → IsAlignment align
    → IsMap mi tops
    → 0 < size
    → reserve_phys mi size align ≡ done (0, mi')
    → ((mi' ≡ mi) × NoRoom size align tops) ⊎ Reserved size align (rejoin tops []) 0 mi'
reserve_phys_fails mi size align tops mi' al m pos r =
    elim (missing_or_Reserved mi size align (rejoin tops []) 0 mi'
      (search_blocks size align tops []) (reserve_phys mi size align)
      (reserve_phys_refines mi size align tops al m) (search_blocks-Takes size align tops [])
      (search_blocks-Chain size align tops [] pos m.order) r) [
        | inl (e, same) ↦ inl (same, search_blocks-NoRoom size align tops [] e)
        | inr taken ↦ inr taken
      ]
