-- ===== src/Legacy/VmSpace/Update.antt =====
-- legacy/src/vm/vm.rs: `update`, with which `mprotect` and `mname` change the allocations of a range.
pub mod Pieces
pub mod Pages
pub mod Select
pub mod Each
pub mod Begin
pub mod Range
pub mod Outcome
use obliteration.Prelude.{
  ℕ, ◌+◌, ◌-◌, ◌%◌, ◌^◌, Bool, true, false, not, ◌&&◌, Option, none, some, List, [], ◌∷◌, ◌++◌,
  ◌==◌, ltb, leb, if◌then◌else◌, Result, ok, err, Flow, done, panic, ◌>>=◌, and_then_ok, assertion,
  unwrap_none, sub64, map,
}
use obliteration.Legacy.VmSpace.{Alloc, end_of, page_size, align_virtual_page, insert, start_from}

pub data MemoryUpdateError : Type 0 where
  unaligned_addr zero_len invalid_addr : MemoryUpdateError
  unmapped_addr : ℕ → MemoryUpdateError

-- What the second loop leaves of the allocations, and the list that it fills.
pub record Updating : Type 0 where
  pub kept : List Alloc
  pub adds : List Alloc

unfoldable pub assert_all : List Alloc → List Alloc → Flow (List Alloc)
assert_all [] allocs = done allocs
assert_all (a ∷ adds) allocs = elim (insert a allocs) [
  | none ↦ panic assertion
  | some allocs' ↦ assert_all adds allocs'
]

-- An allocation that the first loop has seen, and whether it is a target.
abbrev pub skipped : Alloc → Alloc × Bool
skipped a = (a, false)

-- Whether the first loop has no round.
abbrev pub is_empty : List Alloc → Bool
is_empty [] = true
is_empty (a ∷ rest) = false

-- The closure `filter`.
module _ (filter : Alloc → Bool) where
  -- The first loop, with `prev` as 0 for the null pointer.
  unfoldable pub select : ℕ → ℕ → List Alloc → Result (List (Alloc × Bool)) MemoryUpdateError
  select end prev [] = ok []
  select end prev (info ∷ rest) = elim (leb end info.addr) [
    | true ↦ ok (map skipped (info ∷ rest))
    | false ↦ elim (not (prev == 0) && not (info.addr == prev)) [
      | true ↦ err (unmapped_addr prev)
      | false ↦ elim (select end (end_of info) rest) [
        | err e ↦ err e
        | ok more ↦ ok ((info, filter info) ∷ more)
      ]
    ]
  ]

-- The closure `update`, which gives the new allocation.
module _ (change : Alloc → Flow Alloc) where
  -- A target whose start is in front of the range.
  unfoldable pub update_first : ℕ → ℕ → Alloc → Flow Updating
  update_first first end info = do
    remain ← sub64 (end_of info) first
    len ← (if ltb end (end_of info) then sub64 end first else done remain)
    alloc ← change (record info { addr = first; len = len })
    kept_len ← sub64 info.len remain
    done (record {
      kept = record info { len = kept_len } ∷ [];
      adds =
          alloc
          ∷ (if not (len == remain)
              then record info { addr = end; len = end_of info - end } ∷ []
              else []);
    })

  -- A target whose end is behind the range.
  unfoldable pub update_head : ℕ → Alloc → Flow Updating
  update_head end info = do
    tail ← sub64 (end_of info) end
    kept_len ← sub64 info.len tail
    info' ← change (record info { len = kept_len })
    done (record { kept = info' ∷ []; adds = record info { addr = end; len = tail } ∷ [] })

  unfoldable pub update_whole : Alloc → Flow Updating
  update_whole info = change info >>= λ info'. done (record { kept = info' ∷ []; adds = [] })

  unfoldable pub update_one : ℕ → ℕ → Alloc → Flow Updating
  update_one first end info =
      if ltb info.addr first
      then update_first first end info
      else if ltb end (end_of info)
      then update_head end info
      else update_whole info

  -- The second loop.
  unfoldable pub update_each : ℕ → ℕ → List (Alloc × Bool) → Flow Updating
  update_each first end [] = done (record { kept = []; adds = [] })
  update_each first end (t ∷ rest) = elim t.1 [
    | false ↦ update_each first end rest >>= λ later.
        done (record { kept = t.0 ∷ later.kept; adds = later.adds })
    | true ↦ update_one first end t.0 >>= λ one. update_each first end rest >>= λ later.
        done (record { kept = one.kept ++ later.kept; adds = one.adds ++ later.adds })
  ]

-- `update` itself.
module _ (filter : Alloc → Bool) (change : Alloc → Flow Alloc) where
  unfoldable pub update : List Alloc → ℕ → ℕ → Flow (Result (List Alloc) MemoryUpdateError)
  update allocs addr len =
      if not (addr % page_size == 0)
      then done (err unaligned_addr)
      else if len == 0
      then done (err zero_len)
      else (let end = align_virtual_page ((addr + len) % 2 ^ 64) in
          let range = start_from allocs addr in
          and_then_ok (done (select filter end 0 range.1)) λ targets.
            if is_empty range.1
            then done (err invalid_addr)
            else (update_each change addr end targets >>= λ u.
                assert_all u.adds (range.0 ++ u.kept) >>= λ after. done (ok after)))

-- `protect storage addr len prot` says whether the host changes the protection.
unfoldable pub mprotect :
    (ℕ → ℕ → ℕ → ℕ → Bool) → List Alloc → ℕ → ℕ → ℕ → Flow (Result (List Alloc) MemoryUpdateError)
mprotect protect allocs addr len prot =
    update (λ i. not (i.prot == prot))
      (λ i.
        if protect i.storage i.addr i.len prot
        then done (record i { prot = prot })
        else panic unwrap_none)
      allocs addr len

-- Whether two names are the same text.
unfoldable pub same_name : List ℕ → List ℕ → Bool
same_name [] [] = true
same_name [] (y ∷ ys) = false
same_name (x ∷ xs) [] = false
same_name (x ∷ xs) (y ∷ ys) = x == y && same_name xs ys

-- `mname`; what the host says of the name is dropped.
unfoldable pub mname : List Alloc → ℕ → ℕ → List ℕ → Flow (Result (List Alloc) MemoryUpdateError)
mname allocs addr len name =
    update (λ i. not (same_name i.name name)) (λ i. done (record i { name = name })) allocs addr len
