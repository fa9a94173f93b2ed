-- ===== src/Kernel/VmHeap/Zones.antt =====
-- Every size up to a page has a zone that is large enough and not twice as large.
use obliteration.Prelude.{
  ℕ, zero, suc, ◌+◌, ◌-◌, ◌*◌, ◌/◌, ◌^◌, ◌≡◌, ◌<◌, ◌≤◌, refl, sym, some, List, [], ◌++◌, ltb,
  if◌then◌else◌, done, get_elem?, replicate, arith, dec_lt, subst, max,
}
use obliteration.Prelude.Bits.{bit_and-ones, bit_and-align_down}
use obliteration.Kernel.VmHeap.{
  Zone, page_bytes, push_zone, push_zones, zones_of, round_size, zone_for,
}

-- So many slots of one zone.
abbrev run : ℕ → ℕ → ℕ → List Zone → List Zone
run count size mask rest = replicate count (record { size = size; align_mask = mask }) ++ rest

push_zones_lem :
    (mask : ℕ)
    → push_zones 12 mask 4 0
      ≡ run 2 16 mask (
          run 1 32 mask (
            run 2 64 mask (
              run 4 128 mask (
                run 8 256 mask (
                  run 16 512 mask (
                    run 32 1024 mask (
                      run 64 2048 mask
                        (run 128 4096 mask (run 256 8192 mask (run 512 16384 mask []))))))))))
unfolding push_zones push_zone
push_zones_lem mask = refl

get_elem?-run :
    (count size mask : ℕ) (rest : List Zone) (k : ℕ)
    → get_elem? (run count size mask rest) k ≡ (
        if ltb k count
        then some (record { size = size; align_mask = mask })
        else get_elem? rest (k - count))
get_elem?-run zero size mask rest k = ground arith
get_elem?-run (suc count) size mask rest zero = ground arith
get_elem?-run (suc count) size mask rest (suc k) =
    ground (arith, get_elem?-run count size mask rest k)

-- From slot `from` on, each slot up to the last of the 1025 holds a zone that `16 * k` bytes fit into,
-- of the smallest size or not larger than that of the slots of half its size.
Picks : ℕ → ℕ → List Zone → Type 0
Picks mask from zones =
    (j : ℕ)
    → from + j ≤ 1024
    → (z : Zone) × (get_elem? zones j ≡ some z)
      × (16 * (from + j) ≤ z.size)
      × (z.size ≤ max 16 (32 * (from + j) - 32))
      × (z.align_mask ≡ mask)

Picks-run :
    (mask from count size : ℕ) (rest : List Zone)
    → 16 * (from + count) ≤ size + 16
    → size ≤ max 16 (32 * from - 32)
    → Picks mask (from + count) rest
    → Picks mask from (run count size mask rest)
unfolding Picks
Picks-run mask from count size rest h k p j within = elim (dec_lt j count) [
  | yes here ↦ (
    record { size = size; align_mask = mask },
    ground (arith, get_elem?-run count size mask rest j),
    omega arith,
    omega arith,
    refl,
  )
  | no later ↦
      let (z, found, fits, tight, same) = p (j - count) (omega arith) in
      (
        z,
        ground (arith, get_elem?-run count size mask rest j),
        omega (arith, fits),
        omega (arith, tight),
        same,
      )
]

Picks-end : (mask : ℕ) → Picks mask 1025 []
unfolding Picks
Picks-end mask j h = absurd (omega arith)

Picks-zones : (shift : ℕ) → Picks (2 ^ shift - 1) 0 (zones_of shift)
unfolding zones_of
Picks-zones shift =
    let m = 2 ^ shift - 1 in
    subst (λ l. Picks m 0 l) (sym (push_zones_lem m))
      (Picks-run m 0 2 16 _ (omega arith) (omega arith) (
        Picks-run m 2 1 32 _ (omega arith) (omega arith) (
          Picks-run m 3 2 64 _ (omega arith) (omega arith) (
            Picks-run m 5 4 128 _ (omega arith) (omega arith) (
              Picks-run m 9 8 256 _ (omega arith) (omega arith) (
                Picks-run m 17 16 512 _ (omega arith) (omega arith) (
                  Picks-run m 33 32 1024 _ (omega arith) (omega arith) (
                    Picks-run m 65 64 2048 _ (omega arith) (omega arith) (
                      Picks-run m 129 128 4096 _ (omega arith) (omega arith) (
                        Picks-run m 257 256 8192 _ (omega arith) (omega arith) (
                          Picks-run m 513 512 16384 _ (omega arith) (omega arith)
                            (Picks-end m))))))))))))

record Rounds (size : ℕ) : Type 0 where
  covers : size ≤ 16 * (round_size size / 16)
  close : 16 * (round_size size / 16) < size + 16

rounds : (size : ℕ) → size ≤ page_bytes → Rounds size
unfolding round_size
rounds size h = record {
  covers = ground (arith, bit_and-ones 4 size, bit_and-align_down 4 60 (size + 16) (omega arith));
  close = ground (arith, bit_and-ones 4 size, bit_and-align_down 4 60 (size + 16) (omega arith));
}

-- For each alignment of the table and each size of at most a page the heap finds a zone: its index
-- is in bounds, its items hold that many bytes at that alignment, and they are 16 bytes or less than
-- twice as large.
pub zone_for-fits :
    (shift size : ℕ)
    → shift < 63
    → size ≤ page_bytes
    → (z : Zone) × (zone_for shift size ≡ done z)
      × (size ≤ z.size)
      × (z.size < max 17 (2 * size))
      × (z.align_mask ≡ 2 ^ shift - 1)
unfolding zone_for Picks
zone_for-fits shift size h k =
    let r = rounds size k in
    let (z, found, fits, tight, same) =
      Picks-zones shift (round_size size / 16) (omega (arith, r.close)) in
    (z, ground (arith, found), omega (arith, fits, r.covers), omega (arith, tight, r.close), same)
