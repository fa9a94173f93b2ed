-- ===== src/Legacy/VmSpace.antt =====
-- legacy/src/vm/vm.rs and legacy/src/vm/iter.rs: the allocations of an address space and `munmap`.
-- The ordered map from start addresses is the list of its values in ascending order; the key of an
-- allocation is its address, which no call changes in place.
pub mod Cut
pub mod Edit
pub mod Unmap
pub mod Start
pub mod Refine
pub mod Lookup
pub mod Update
pub mod Mmap
use obliteration.Prelude.{
  ℕ, zero, suc, ◌+◌, ◌-◌, ◌%◌, ◌^◌, Bool, true, false, not, ◌&&◌, ◌||◌, Option, none, some, List,
  [], ◌∷◌, ◌++◌, ◌==◌, ltb, leb, if◌then◌else◌, Result, ok, err, Flow, done, panic, ◌>>=◌, explicit,
  sub64,
}

-- An allocation, which ends below 2 ^ 64; `storage` says which of the shared storages it lies in.
pub record Alloc : Type 0 where
  pub addr : ℕ
  pub len : ℕ
  pub prot : ℕ
  pub name : List ℕ
  pub storage : ℕ

abbrev pub end_of : Alloc → ℕ
end_of a = a.addr + a.len

-- `VmSpace::VIRTUAL_PAGE_SIZE`. Pointers wrap around at 2 ^ 64.
abbrev pub page_size : ℕ
page_size = 0x4000

unfoldable pub align_virtual_page : ℕ → ℕ
align_virtual_page ptr =
    if ptr % page_size == 0 then ptr else (ptr + (page_size - ptr % page_size)) % 2 ^ 64

-- `map.range(..=addr).next_back()`.
unfoldable pub last_at_most : List Alloc → ℕ → Option Alloc
last_at_most [] addr = none
last_at_most (a ∷ rest) addr = elim (last_at_most rest addr) [
  | some b ↦ some b
  | none ↦ if leb a.addr addr then some a else none
]

-- `map.range_mut(key..)`, and what stands in front of it.
unfoldable pub from_key : ℕ → List Alloc → List Alloc
from_key key [] = []
from_key key (a ∷ rest) = elim (leb key a.addr) [ true ↦ a ∷ rest | false ↦ from_key key rest ]

unfoldable pub before_key : ℕ → List Alloc → List Alloc
before_key key [] = []
before_key key (a ∷ rest) = elim (leb key a.addr) [ true ↦ [] | false ↦ a ∷ before_key key rest ]

-- `StartFromMut::new`: what the iterator leaves out, and what it goes through.
unfoldable pub start_from : List Alloc → ℕ → List Alloc × List Alloc
start_from allocs addr = elim (last_at_most allocs addr) [
  | none ↦ (allocs, [])
  | some a ↦
      if leb (end_of a) addr
      then (allocs, [])
      else (before_key a.addr allocs, from_key a.addr allocs)
]

-- `BTreeMap::insert`; `none`: the key was taken.
unfoldable pub insert : Alloc → List Alloc → Option (List Alloc)
insert a [] = some (a ∷ [])
insert a (b ∷ rest) = elim (ltb a.addr b.addr) [
  | true ↦ some (a ∷ b ∷ rest)
  | false ↦ elim (a.addr == b.addr) [
    | true ↦ none
    | false ↦ elim (insert a rest) [ none ↦ none | some rest' ↦ some (b ∷ rest') ]
  ]
]

-- `BTreeMap::remove`.
unfoldable pub remove : ℕ → List Alloc → List Alloc
remove key [] = []
remove key (a ∷ rest) = elim (a.addr == key) [ true ↦ rest | false ↦ a ∷ remove key rest ]

unfoldable pub insert_all : List Alloc → List Alloc → Flow (List Alloc)
insert_all [] allocs = done allocs
insert_all (a ∷ adds) allocs = elim (insert a allocs) [
  | none ↦ panic explicit
  | some allocs' ↦ insert_all adds allocs'
]

unfoldable pub remove_all : List ℕ → List Alloc → List Alloc
remove_all [] allocs = allocs
remove_all (key ∷ removes) allocs = remove_all removes (remove key allocs)

-- What the loop of `munmap` leaves of the allocations it goes through, and the two lists it fills.
pub record Unmapping : Type 0 where
  pub kept : List Alloc
  pub adds : List Alloc
  pub removes : List ℕ

pub data MunmapError : Type 0 where
  unaligned_addr zero_len : MunmapError

-- `decommit storage addr len` says whether the host gives the memory back.
module _ (decommit : ℕ → ℕ → ℕ → Bool) where
  -- The first allocation, where the range starts behind its start.
  unfoldable pub unmap_first : ℕ → ℕ → Alloc → Flow Unmapping
  unmap_first first end info = do
    remain ← sub64 (end_of info) first
    let middle = ltb end (end_of info)
    gone ← (if middle then sub64 end first else done remain)
    if decommit info.storage first gone
        then (sub64 info.len remain >>= λ kept_len. done (record {
          kept = record info { len = kept_len } ∷ [];
          adds = if middle then record info { addr = end; len = end_of info - end } ∷ [] else [];
          removes = [];
        }))
        else panic explicit

  -- The last allocation, which the range does not reach the end of.
  unfoldable pub unmap_head : ℕ → Alloc → Flow Unmapping
  unmap_head end info = do
    gone ← sub64 end info.addr
    tail ← sub64 info.len gone
    if decommit info.storage info.addr gone
        then done (record {
          kept = info ∷ [];
          adds = record info { addr = end; len = tail } ∷ [];
          removes = info.addr ∷ [];
        })
        else panic explicit

  unfoldable pub unmap_whole : Alloc → Flow Unmapping
  unmap_whole info =
      if decommit info.storage info.addr info.len
      then done (record { kept = info ∷ []; adds = []; removes = info.addr ∷ [] })
      else panic explicit

  unfoldable pub unmap_one : ℕ → ℕ → Alloc → Flow Unmapping
  unmap_one first end info =
      if ltb info.addr first
      then unmap_first first end info
      else if ltb end (end_of info)
      then unmap_head end info
      else unmap_whole info

  unfoldable pub unmap_each : ℕ → ℕ → List Alloc → Flow Unmapping
  unmap_each first end [] = done (record { kept = []; adds = []; removes = [] })
  unmap_each first end (info ∷ rest) = elim (leb end info.addr) [
    | true ↦ done (record { kept = info ∷ rest; adds = []; removes = [] })
    | false ↦ unmap_one first end info >>= λ one. unmap_each first end rest >>= λ later.
        done (record {
          kept = one.kept ++ later.kept;
          adds = one.adds ++ later.adds;
          removes = one.removes ++ later.removes;
        })
  ]

  unfoldable pub munmap : List Alloc → ℕ → ℕ → Flow (Result (List Alloc) MunmapError)
  munmap allocs addr len =
      if not (addr % page_size == 0)
      then done (err unaligned_addr)
      else if len == 0
      then done (err zero_len)
      else (let end = align_virtual_page ((addr + len) % 2 ^ 64) in
          let range = start_from allocs addr in
          unmap_each addr end range.1 >>= λ u.
          insert_all u.adds (range.0 ++ u.kept) >>= λ added. done (ok (remove_all u.removes added)))
