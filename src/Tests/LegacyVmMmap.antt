-- ===== src/Tests/LegacyVmMmap.antt =====
-- `mmap` on a host with pages of 4K and room from 0x101000 on.
use obliteration.Prelude.{
  ℕ, ◌+◌, ◌%◌, ◌≡◌, ◌<◌, ◌≤◌, refl, inl, false, Option, none, some, [], ◌∷◌, leb, if◌then◌else◌,
  bit_and, arith, Result, ok, err, done, Bool-cases, inr, leb→le, ◌^◌,
}
use obliteration.Legacy.VmSpace.{Alloc, align_virtual_page, insert, page_size}
use obliteration.Legacy.VmSpace.Start.{covered}
use obliteration.Legacy.VmSpace.Mmap.{
  HostError, out_of_memory, no_mem, non_zero_offset, MmapRequest, determine, alloc, stored, vm_mmap,
  round_up, mmap,
}
use obliteration.Legacy.VmSpace.Mmap.Insert.{Free}
use obliteration.Legacy.VmSpace.Mmap.Granted.{Mapped, mmap-Mapped}

abbrev low : Alloc
low = record { addr = 0x4000; len = 0x8000; prot = 3; name = []; storage = 1 }

-- Up to a megabyte, from one place.
abbrev reserve : ℕ → ℕ → Result (ℕ × ℕ) HostError
reserve addr len = if leb len 0x100000 then ok (0x101000, 2) else err out_of_memory

abbrev commit : ℕ → ℕ → ℕ → ℕ → Option HostError
commit s a l p = none

abbrev request : ℕ → ℕ → MmapRequest
request len offset = record {
  addr = 0;
  len = len;
  prot = 3;
  name = 7 ∷ [];
  flags = 0x1002;
  fd = 0xffffffff;
  offset = offset;
}

-- The new allocation has the rest of what the host gave, behind its first page.
maps_more : mmap reserve commit 0x1000 (low ∷ []) false (request 0x4000 0) ≡ (
    let a : Alloc = record {
      addr = 0x104000;
      len = 0x4000;
      prot = 3;
      name = 7 ∷ [];
      storage = 2;
    } in
    done (ok (low ∷ a ∷ [], a)))
unfolding mmap vm_mmap alloc determine stored round_up align_virtual_page insert
maps_more = refl

runs_out :
    mmap reserve commit 0x1000 (low ∷ []) false (request 0x200000 0) ≡ done (err (no_mem 0x200000))
unfolding mmap vm_mmap alloc determine round_up
runs_out = refl

refuses_offset :
    mmap reserve commit 0x1000 (low ∷ []) false (request 0x4000 1) ≡ done (err non_zero_offset)
unfolding mmap
refuses_offset = refl

reserve-place :
    (addr len p s : ℕ) → reserve addr len ≡ ok (p, s) → (p ≡ 0x101000) × (len ≤ 0x100000)
reserve-place addr len p s h = elim (Bool-cases (leb len 0x100000)) [
  | inl fits ↦ (cc (fits, h), leb→le len 0x100000 fits)
  | inr over ↦ cc (over, h)
]

reserve-grants :
    (addr len p s : ℕ)
    → reserve addr len ≡ ok (p, s)
    → (p % 0x1000 ≡ 0) × (p + len < 2 ^ 64) × Free (low ∷ []) p (p + len)
unfolding covered
reserve-grants addr len p s h =
    let (at, short) = reserve-place addr len p s h in
    (omega (arith, at), omega (arith, at, short), λ x from to. ground (arith, at, from))

reserve-refuses : (addr len : ℕ) (e : HostError) → reserve addr len ≡ err e → e ≡ out_of_memory
reserve-refuses addr len e h = elim (Bool-cases (leb len 0x100000)) [
  | inl fits ↦ cc (fits, h)
  | inr over ↦ cc (over, h)
]

commit-refuses : (s a l p : ℕ) (e : HostError) → commit s a l p ≡ some e → e ≡ out_of_memory
commit-refuses s a l p e h = cc h

-- Where the host gives a place that is a multiple of a page, the allocation is longer than asked for.
maps_slack :
    mmap (λ addr len. ok (0x100000, 2)) commit 0x1000 (low ∷ []) false (request 0x4000 0) ≡ (
      let a : Alloc = record {
        addr = 0x100000;
        len = 0x7000;
        prot = 3;
        name = 7 ∷ [];
        storage = 2;
      } in
      done (ok (low ∷ a ∷ [], a)))
unfolding mmap vm_mmap alloc determine stored round_up align_virtual_page insert
maps_slack = refl

mmap-Mapped_example :
    (l : ℕ) × (0x4000 ≤ l)
    × (l < 0x4000 + page_size)
    × (l % page_size ≡ 0)
    × Mapped reserve commit 0x1000
        (inl refl)
        (low ∷ [])
        reserve-grants
        reserve-refuses
        commit-refuses
        0
        l
        (bit_and 3 0x37)
        (7 ∷ [])
        (mmap reserve commit 0x1000 (low ∷ []) false (request 0x4000 0))
mmap-Mapped_example =
    mmap-Mapped reserve commit 0x1000 (inl refl) (low ∷ []) reserve-grants reserve-refuses
      commit-refuses (request 0x4000 0) (omega arith, omega arith, tt)
      (refl, refl, refl, refl, refl, refl, refl, omega arith) (omega arith) (omega arith)
      (omega arith)
