-- ===== src/Legacy/VmSpace/Mmap/Granted.antt =====
-- legacy/src/vm/vm.rs: what `mmap` comes to, by what the host gives.
use obliteration.Prelude.{
  ℕ, ◌+◌, ◌-◌, ◌%◌, ◌^◌, ◌≡◌, ◌≢◌, ◌<◌, ◌≤◌, refl, sym, ap, ◌⊎◌, inl, inr, true, false, not, ◌&&◌,
  ◌||◌, Option, some, List, ◌==◌, ltb, if◌then◌else◌, bit_and, arith, Result, ok, err, Flow, done,
  add64, subst, ℕ_discrete,
}
use Prim.Native.Nat.{bit_xor}
use obliteration.Legacy.VmSpace.{Alloc, page_size, insert}
use obliteration.Legacy.VmSpace.Cut.{Apart}
use obliteration.Legacy.VmSpace.Start.{covers}
use obliteration.Legacy.VmSpace.Lookup.{page_of, page_at}
use obliteration.Legacy.VmSpace.Mmap.{
  stored, HostError, out_of_memory, MmapError, no_mem, vm_mmap, round_up, mmap, MmapRequest,
  contains_flag, intersects, remove_flag,
}
use obliteration.Legacy.VmSpace.Mmap.Insert.{Free, insert-Inserted}
use obliteration.Legacy.VmSpace.Mmap.Reserved.{add64-fits, Exhausted, Allocated, alloc-Allocated}

stored-done :
    (allocs after : List Alloc) (a : Alloc)
    → insert a allocs ≡ some after
    → stored allocs a ≡ done (ok (after, a))
unfolding stored
stored-done allocs after a h = rw (stored, h) refl

-- The granularity of the host, what it gives that is not in use, and its errors.
module _ (reserve : ℕ → ℕ → Result (ℕ × ℕ) HostError) (commit : ℕ → ℕ → ℕ → ℕ → Option HostError)
    (granularity : ℕ)
    (known : (granularity ≡ 0x1000) ⊎ (granularity ≡ 0x4000) ⊎ (granularity ≡ 0x10000))
    (allocs : List Alloc)
    (grants : (addr len p s : ℕ)
      → reserve addr len ≡ ok (p, s)
      → (p % granularity ≡ 0) × (p + len < 2 ^ 64) × Free allocs p (p + len))
    (refuses : (addr len : ℕ) (e : HostError) → reserve addr len ≡ err e → e ≡ out_of_memory)
    (commits : (s a l p : ℕ) (e : HostError) → commit s a l p ≡ some e → e ≡ out_of_memory) where
  -- No memory, where the host has refused, or a new allocation that is long enough.
  abbrev pub Mapped : ℕ → ℕ → ℕ → List ℕ → Flow (Result (List Alloc × Alloc) MmapError) → Type 0
  Mapped addr len prot name m =
      (Exhausted reserve commit granularity known allocs grants refuses commits
          (bit_and (addr + 0x3fff) 0xffffffffffffc000) len prot
        × (m ≡ done (err (no_mem len))))
      ⊎ ((after : List Alloc) × (a : Alloc) × (m ≡ done (ok (after, a)))
          × (a.addr % page_size ≡ 0)
          × (len ≤ a.len)
          × (a.prot ≡ prot)
          × (a.name ≡ name)
          × Apart 0 after
          × ((x : ℕ)
              → page_at after x ≡ (if covers a x then some (page_of a) else page_at allocs x)))

  pub vm_mmap-Mapped :
      (addr len prot : ℕ) (name : List ℕ)
      → Apart 0 allocs
      → 0 < len
      → len + 0x3fff < 2 ^ 64
      → addr + 0x3fff < 2 ^ 64
      → Mapped addr len prot name (vm_mmap reserve commit granularity allocs addr len prot name)
  unfolding vm_mmap Allocated
  vm_mmap-Mapped addr len prot name w pos h k =
      let added : add64 addr 0x3fff ≡ done (addr + 0x3fff) = add64-fits addr 0x3fff k in
      elim (alloc-Allocated reserve commit granularity known allocs grants refuses commits
        (bit_and (addr + 0x3fff) 0xffffffffffffc000) len prot name h) [
          | inl (why, refused) ↦ inl (why, rw (added, refused) refl)
          | inr (a, given, whole, enough, same_prot, same_name, free) ↦
              let i =
                insert-Inserted 0 a allocs (omega arith) (omega (arith, pos, enough)) w free in
              inr (
                i.after,
                a,
                rw (added, given) (stored-done allocs i.after a i.run),
                whole,
                enough,
                same_prot,
                same_name,
                i.ordered,
                i.pages,
              )
        ]

  -- A request for memory of its own, anywhere or at a place that the code handles.
  abbrev pub IsSupported : MmapRequest → Type 0
  IsSupported r =
      let flags = remove_flag (remove_flag r.flags 0x10000) 0x100000 in
      (contains_flag r.flags 0x200000 ≡ false)
      × (intersects r.flags 0x1100 ≡ true)
      × (contains_flag flags 0x10 ≡ false)
      × ((contains_flag flags 0x100 || contains_flag flags 0x1000) ≡ true)
      × (contains_flag flags 0x200000 ≡ false)
      × (r.fd ≡ 2 ^ 32 - 1)
      × (r.offset ≡ 0)
      × (r.addr ≢ 0x880000000)

  round_up-done :
      (len : ℕ)
      → len + 0x3fff < 2 ^ 64
      → (l : ℕ) × (round_up reserve commit len ≡ done l)
        × (len ≤ l)
        × (l < len + page_size)
        × (l % page_size ≡ 0)
  unfolding round_up
  round_up-done len h = elim (ℕ_discrete (len % page_size) 0) [
    | yes whole ↦
        let test : (len % page_size == 0) ≡ true = ground (arith, whole) in
        (len, rw test refl, omega arith, omega arith, whole)
    | no rest ↦
        let test : (len % page_size == 0) ≡ false = ground (arith, rest) in
        let added : add64 len (page_size - len % page_size)
            ≡ done (len + (page_size - len % page_size)) =
          add64-fits len _ (omega (arith, rest)) in
        (
          len + (page_size - len % page_size),
          rw (test, added) refl,
          omega arith,
          omega (arith, rest),
          omega (arith, rest),
        )
  ]

  -- A supported request of at least one byte, small enough that its length can be rounded up, at an address that can
  -- be too, from a thread that is not restricted. The granularity of the host is 4K, 16K or 64K; the host gives ranges
  -- that start at a multiple of it, end below 2 ^ 64 and are not in use; its only error is that memory runs out; the
  -- allocations are in order. Then either the host, asked for the length rounded up to pages and less than a page more,
  -- has refused to reserve it at the address rounded up to a page, or to commit a part of what it reserved there, the
  -- answer is that there is no memory, and nothing changes; or there is a new allocation, which starts at a page, has
  -- that length at least, and the name and the known bits of the protection that are asked for. Every address in it
  -- stands for it, all others stand for what they did, and the allocations are in order.
  pub mmap-Mapped :
      (r : MmapRequest)
      → Apart 0 allocs
      → IsSupported r
      → 0 < r.len
      → r.len + 0x4000 < 2 ^ 64
      → r.addr + 0x3fff < 2 ^ 64
      → (l : ℕ) × (r.len ≤ l)
        × (l < r.len + page_size)
        × (l % page_size ≡ 0)
        × Mapped r.addr l
            (bit_and r.prot 0x37)
            r.name
            (mmap reserve commit granularity allocs false r)
  unfolding mmap
  mmap-Mapped r w (unk1, kind, fixed, anon, unk1_again, fd, offset, place) pos small low =
      let flags = remove_flag (remove_flag r.flags 0x10000) 0x100000 in
      let t1 : (contains_flag r.flags 0x200000 || r.len == 0) ≡ false = ground (arith, unk1, pos) in
      let t2 : (intersects r.flags 0x1100 && not (r.offset == 0)) ≡ false =
        ground (arith, offset) in
      let t3 : (intersects r.flags 0x1100 && not (r.fd == 2 ^ 32 - 1)) ≡ false =
        ground (arith, fd) in
      let t4 : (not (intersects r.flags 0x1100) && contains_flag r.flags 0x400) ≡ false =
        ground (arith, kind) in
      let most : bit_xor (bit_and r.offset 0x3fff) 0xffffffffffffbfff ≡ 0xffffffffffffbfff =
        ap (λ t. bit_xor (bit_and t 0x3fff) 0xffffffffffffbfff) offset in
      let t5 : ltb (bit_xor (bit_and r.offset 0x3fff) 0xffffffffffffbfff) r.len ≡ false =
        ground (arith, most, small) in
      let t6 : (r.addr == 0 && false) ≡ false = ground arith in
      let t7 : (r.addr == 0x880000000) ≡ false = ground (arith, place) in
      let t8 : (not (contains_flag flags 0x100) && not (contains_flag flags 0x1000)) ≡ false =
        ground (arith, anon) in
      let t9 : (contains_flag flags 0x200000 || false) ≡ false = ground (arith, unk1_again) in
      let (l, rounded, from, to, whole) = round_up-done r.len (omega (arith, small)) in
      (
        l,
        from,
        to,
        whole,
        subst (λ m. Mapped r.addr l (bit_and r.prot 0x37) r.name m)
            (sym (rw (t1, t2, t3, t4, t5, fixed, t6, t7, t8, t9, rounded) refl))
            (vm_mmap-Mapped r.addr l (bit_and r.prot 0x37) r.name w (omega (arith, pos, from))
              (omega (arith, small, to, whole)) low),
      )
