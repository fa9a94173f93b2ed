-- ===== src/Legacy/VmSpace/Mmap.antt =====
-- legacy/src/vm/vm.rs: `mmap`, with the calls `map` and `alloc` behind it.
pub mod Insert
pub mod Reserved
pub mod Granted
use obliteration.Prelude.{
  ℕ, ◌+◌, ◌-◌, ◌%◌, ◌^◌, Bool, true, false, not, ◌&&◌, ◌||◌, Option, none, some, List, ◌==◌, ltb,
  leb, if◌then◌else◌, bit_and, bit_or, Result, ok, err, Flow, done, panic, ◌>>=◌, and_then_ok,
  explicit, unfinished, add64, sub64,
}
use Prim.Native.Nat.{bit_xor}
use obliteration.Legacy.VmSpace.{Alloc, page_size, align_virtual_page, insert}

pub data MmapError : Type 0 where
  non_negative_fd non_zero_offset invalid_offset : MmapError
  no_mem : ℕ → MmapError

-- The kind of an error of the host.
pub data HostError : Type 0 where
  out_of_memory other_error : HostError

abbrev pub contains_flag : ℕ → ℕ → Bool
contains_flag flags f = bit_and flags f == f

abbrev pub intersects : ℕ → ℕ → Bool
intersects flags f = not (bit_and flags f == 0)

abbrev pub remove_flag : ℕ → ℕ → ℕ
remove_flag flags f = flags - bit_and flags f

-- The arguments of `mmap`; `fd` is the 32 bits of an `i32`.
pub record MmapRequest : Type 0 where
  pub addr : ℕ
  pub len : ℕ
  pub prot : ℕ
  pub name : List ℕ
  pub flags : ℕ
  pub fd : ℕ
  pub offset : ℕ

-- The end of `map`: the map of allocations with the new one, whose range the result owns.
unfoldable pub stored : List Alloc → Alloc → Flow (Result (List Alloc × Alloc) MmapError)
stored allocs a = elim (insert a allocs) [
  | none ↦ panic explicit
  | some allocs' ↦ done (ok (allocs', a))
]

-- `reserve addr len` is `Memory::new`, with the address that the host gives and a number for the new storage;
-- `commit storage addr len prot` gives the error, if there is one.
module _ (reserve : ℕ → ℕ → Result (ℕ × ℕ) HostError)
    (commit : ℕ → ℕ → ℕ → ℕ → Option HostError) where
  -- The address, the length and the storage.
  unfoldable pub determine : ℕ → ℕ → ℕ → Flow (Result (ℕ × ℕ × ℕ) HostError)
  determine granularity addr len =
      if ltb granularity page_size
      then (add64 len (page_size - granularity) >>= λ big.
          and_then_ok (done (reserve addr big)) λ m.
            let up = align_virtual_page m.0 in
            sub64 up m.0 >>= λ skip. sub64 big skip >>= λ rest. done (ok (up, rest, m.1)))
      else and_then_ok (done (reserve addr len)) λ m. done (ok (m.0, len, m.1))

  unfoldable pub alloc : ℕ → ℕ → ℕ → ℕ → List ℕ → Flow (Result Alloc HostError)
  alloc granularity addr len prot name = and_then_ok (determine granularity addr len) λ m.
      elim (commit m.2 m.0 m.1 prot) [
        | some e ↦ done (err e)
        | none ↦
            done (ok (record { addr = m.0; len = m.1; prot = prot; name = name; storage = m.2 }))
      ]

  -- `map`.
  unfoldable pub vm_mmap :
      ℕ → List Alloc → ℕ → ℕ → ℕ → List ℕ → Flow (Result (List Alloc × Alloc) MmapError)
  vm_mmap granularity allocs addr len prot name = add64 addr 0x3fff >>= λ up.
      alloc granularity (bit_and up 0xffffffffffffc000) len prot name >>= λ r. elim r [
        | err e ↦ elim e [ out_of_memory ↦ done (err (no_mem len)) | other_error ↦ panic explicit ]
        | ok a ↦ stored allocs a
      ]

  -- `len` up to the next multiple of a page.
  unfoldable pub round_up : ℕ → Flow ℕ
  round_up len = if len % page_size == 0 then done len else add64 len (page_size - len % page_size)

  -- Without the file pointer of the thread, which MAP_VOID clears. `restricted` says that there is a current thread whose process has the bit 2 of `unk1`.
  unfoldable pub mmap :
      ℕ → List Alloc → Bool → MmapRequest → Flow (Result (List Alloc × Alloc) MmapError)
  mmap granularity allocs restricted r =
      if contains_flag r.flags 0x200000 || r.len == 0
      then panic unfinished
      else if intersects r.flags 0x1100 && not (r.offset == 0)
      then done (err non_zero_offset)
      else if intersects r.flags 0x1100 && not (r.fd == 2 ^ 32 - 1)
      then done (err non_negative_fd)
      else if not (intersects r.flags 0x1100) && contains_flag r.flags 0x400
      then panic unfinished
      else (let flags = remove_flag (remove_flag r.flags 0x10000) 0x100000 in
          if ltb (bit_xor (bit_and r.offset 0x3fff) 0xffffffffffffbfff) r.len
          then done (err invalid_offset)
          else if contains_flag flags 0x10
          then panic unfinished
          else if r.addr == 0 && restricted
          then panic unfinished
          else if r.addr == 0x880000000
          then panic unfinished
          else if not (contains_flag flags 0x100) && not (contains_flag flags 0x1000)
          then panic unfinished
          else if contains_flag flags 0x200000 || restricted
          then panic unfinished
          else (round_up r.len >>= λ len.
              vm_mmap granularity allocs r.addr len (bit_and r.prot 0x37) r.name))
