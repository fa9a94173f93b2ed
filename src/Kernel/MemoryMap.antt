-- ===== src/Kernel/MemoryMap.antt =====
-- kernel/src/main.rs: the first loop of `load_memory_map`, which puts the entries of the boot environment
-- into the array `physmap`. The entries of the array up to `last` are pairs of a start and an end; the list
-- `below` is the pairs in front of `insert_idx`, the nearest first, and `above` are those from there on.
pub mod Regions
pub mod Loading
use obliteration.Prelude.{
  ℕ, ◌+◌, ◌-◌, ◌*◌, Bool, true, false, List, [], ◌∷◌, ◌++◌, length, replicate, ltb, ◌==◌,
  if◌then◌else◌, Flow, done, panic, ◌>>=◌, add64, explicit, unfinished,
}
use obliteration.Kernel.Dmem.Blocks.{Block, rejoin, flat}

pub data MapType : Type 0 where
  end_of_map ram reserved : MapType

pub record PhysMap : Type 0 where
  pub base : ℕ
  pub len : ℕ
  pub ty : MapType

-- What becomes of an entry: it is in the map, it is left out, or there is no room for it.
pub data Added : Type 0 where
  added ignored full : List Block → Added

abbrev pub range : ℕ → ℕ → Block
range from to = record { start = from; end = to }

-- The end of the loop's body: a new pair, which only the end of the map takes. The array has 30 pairs.
unfoldable pub append_region : PhysMap → List Block → List Block → Flow Added
append_region m below above =
    if length below + length above == 30 then done (full (rejoin below above)) else elim above [
      | b ∷ rest ↦ panic unfinished
      | [] ↦ add64 m.base m.len >>= λ to. done (added (rejoin below (range m.base to ∷ [])))
    ]

-- The entry starts where the previous pair ends.
unfoldable pub widen_previous : PhysMap → List Block → List Block → Flow Added
widen_previous m [] above = append_region m [] above
widen_previous m (p ∷ below) above =
    if m.base == p.end
    then (add64 m.base m.len >>= λ to. done (added (rejoin below (range p.start to ∷ above))))
    else append_region m (p ∷ below) above

-- The entry ends where the next pair starts.
unfoldable pub widen_next : PhysMap → List Block → List Block → Flow Added
widen_next m below [] = widen_previous m below []
widen_next m below (b ∷ above) = add64 m.base m.len >>= λ to.
    if to == b.start
    then done (added (rejoin below (range m.base b.end ∷ above)))
    else widen_previous m below (b ∷ above)

-- The search for `insert_idx`, with the rest of the body behind it.
unfoldable pub add_region : PhysMap → List Block → List Block → Flow Added
add_region m below [] = widen_next m below []
add_region m below (b ∷ above) =
    let onward = add_region m (b ∷ below) above in
    if ltb m.base b.end
    then (add64 m.base m.len >>= λ to.
        if ltb b.start to
        then done (ignored (rejoin below (b ∷ above)))
        else widen_next m below (b ∷ above))
    else onward

-- The loop over the entries, with `last` behind it.
unfoldable pub load_regions : List PhysMap → List Block → Flow (List Block × ℕ)
load_regions [] bs = done (bs, 2 * length bs - 2)
load_regions (m ∷ ms) bs = elim (m.ty) [
  | end_of_map ↦ done (bs, 2 * length bs - 2)
  | reserved ↦ load_regions ms bs
  | ram ↦ elim (m.len == 0) [
    | true ↦ done (bs, 2 * length bs - 2)
    | false ↦ add_region m [] bs >>= λ a. elim a [
      | added bs' ↦ load_regions ms bs'
      | ignored bs' ↦ load_regions ms bs'
      | full bs' ↦ done (bs', 60)
    ]
  ]
]

-- The check behind the loop, on the array that holds the pairs: `physmap` and `last`.
unfoldable pub check_physmap : List Block → ℕ → Flow (List ℕ × ℕ)
check_physmap [] last = panic explicit
check_physmap (b ∷ bs) last =
    if b.end == 0
    then panic explicit
    else done (flat (b ∷ bs) ++ replicate (60 - 2 * length (b ∷ bs)) 0, last)

-- The loop on the array of zeros, and the check.
unfoldable pub load_physmap : List PhysMap → Flow (List ℕ × ℕ)
load_physmap ms = load_regions ms (range 0 0 ∷ []) >>= λ r. check_physmap r.0 r.1
