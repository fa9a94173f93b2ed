-- ===== src/Hv/Ram/Allocs.antt =====
-- What `alloc` does to the map, on each of its outcomes.
use obliteration.Prelude.{
  ℕ, suc, ◌+◌, ◌*◌, ◌%◌, ◌^◌, ◌≡◌, ◌<◌, ◌≤◌, sym, ap, ◌∙◌, Bool, true, false, not, ◌&&◌, ◌||◌,
  Option, none, some, ◌==◌, ltb, if◌then◌else◌, arith, subst, Bool-cases, inl, inr, Option-cases,
  Flow, done, panic, ◌>>=◌, assertion, Result, ok, err,
}
use native.Mathlib.Nat.{mul-le-mul_right, zero-mod}
use obliteration.Prelude.Steps.{steps_between, steps_count}
use obliteration.Hv.Ram.{
  BlockState, locked, Blocks, in_range, any_in, Ram, block_size, RamError, invalid_addr,
  already_allocated, commit_failed, map_failed, lock_new, steps, checked_end, alloc,
}
use obliteration.Hv.Ram.Blocks.{get_block, Ordered, any_in-none}
use obliteration.Hv.Ram.Inserts.{Locks, lock_new-Locks}
use obliteration.Hv.Ram.Locking.{few_steps}

ok_eq : {A E : Type 0} (a b : A) → ◌≡◌ {A = Flow (Result A E)} (done (ok a)) (done (ok b)) → a ≡ b
ok_eq a b h = cc

module _ (commit map : ℕ → ℕ → Bool) (r : Ram) (addr len : ℕ) (blocks : Blocks) where
  -- What `alloc` says of a range that is aligned to blocks, where the host answers as given.
  abbrev pub alloc_error : Option RamError
  alloc_error =
      if not (ltb (addr + len) (2 ^ 64)) || ltb r.len (addr + len)
      then some invalid_addr
      else if any_in addr (addr + len) blocks
      then some already_allocated
      else if not (commit addr len)
      then some commit_failed
      else if not (map addr len)
      then some map_failed
      else none

  -- The blocks of the range are new and locked, and every other block is as before.
  pub record Allocated (after : Blocks) : Type 0 where
    pub were : (x : ℕ) → in_range addr (addr + len) x ≡ true → get_block blocks x ≡ none
    pub now :
        (x : ℕ)
        → x % block_size r ≡ 0
        → in_range addr (addr + len) x ≡ true
        → get_block after x ≡ some locked
    pub keeps : (x : ℕ) (s : BlockState) → get_block blocks x ≡ some s → get_block after x ≡ some s
    pub order : Ordered (block_size r) 0 after

  alloc_checked :
      addr % block_size r ≡ 0
      → len % block_size r ≡ 0
      → alloc commit map r addr len blocks ≡ elim alloc_error [
        | some e ↦ done (err e)
        | none ↦
            lock_new (steps addr (addr + len) (block_size r)) (block_size r) addr blocks
            >>= (λ left. done (ok left))
      ]
  unfolding alloc checked_end
  alloc_checked h k = ground arith

  alloc_unaligned :
      (addr % block_size r == 0) && (len % block_size r == 0) ≡ false
      → alloc commit map r addr len blocks ≡ panic assertion
  unfolding alloc checked_end
  alloc_unaligned h = ground arith

  range_free :
      any_in addr (addr + len) blocks ≡ false
      → (x : ℕ) → in_range addr (addr + len) x ≡ true
      → get_block blocks x ≡ none
  range_free h x k = any_in-none addr (addr + len) x blocks h (ground arith) (ground arith)

  free_slots :
      (n : ℕ)
      → len ≡ n * block_size r
      → any_in addr (addr + len) blocks ≡ false
      → 0 < block_size r
      → (i : ℕ) → i < n
      → get_block blocks (addr + i * block_size r) ≡ none
  free_slots n e h pos i k =
      let below : suc i * block_size r ≤ n * block_size r = mul-le-mul_right (block_size r) k in
      any_in-none addr (addr + len) (addr + i * block_size r) blocks h (omega arith) (omega arith)

  Locks-Allocated :
      (n : ℕ)
      → addr % block_size r ≡ 0
      → len ≡ n * block_size r
      → any_in addr (addr + len) blocks ≡ false
      → (l : Locks n (block_size r) addr blocks) → Allocated l.after
  Locks-Allocated n al e h l = record {
    were = range_free h;
    now = λ x a k. at_block x a k;
    keeps = l.keeps;
    order = l.order;
  }
    where
      at_block :
          (x : ℕ)
          → x % block_size r ≡ 0
          → in_range addr (addr + len) x ≡ true
          → get_block l.after x ≡ some locked
      at_block x a k =
          let (i, f) = steps_between addr x (block_size r) al a (ground arith) in
          ap (λ y. get_block l.after y) f
          ∙ l.adds i (few_steps i n (block_size r) addr x f (ground arith))

  -- The outcome that belongs to an error, or to none.
  abbrev pub Outcome : Option RamError → Type 0
  Outcome (some e) = alloc commit map r addr len blocks ≡ done (err e)
  Outcome none =
      (after : Blocks) × (alloc commit map r addr len blocks ≡ done (ok after)) × Allocated after

  free_of_error : alloc_error ≡ none → any_in addr (addr + len) blocks ≡ false
  free_of_error h = ground arith

  alloc_succeeds :
      0 < block_size r
      → addr % block_size r ≡ 0
      → len % block_size r ≡ 0
      → Ordered (block_size r) 0 blocks
      → alloc_error ≡ none
      → Outcome none
  alloc_succeeds pos al whole w h =
      let (n, e) =
        steps_between 0 len (block_size r) (zero-mod (block_size r)) whole (omega arith) in
      let free = free_of_error h in
      let l =
        lock_new-Locks n (block_size r) addr blocks pos al w
          (free_slots n (omega arith) free pos) in
      let count : steps addr (addr + len) (block_size r) ≡ n =
        ap (λ t. steps addr (addr + t) (block_size r)) (e ∙ omega arith)
        ∙ steps_count addr n (block_size r) pos in
      (
        l.after,
        alloc_checked al whole ∙ ground (arith, h, count, l.run),
        Locks-Allocated n al (omega arith) free l,
      )

  -- A call that has succeeded has done so.
  pub alloc-Allocated :
      (after : Blocks)
      → 0 < block_size r
      → Ordered (block_size r) 0 blocks
      → alloc commit map r addr len blocks ≡ done (ok after)
      → Allocated after × (addr % block_size r ≡ 0)
  alloc-Allocated after pos w h =
      elim (Bool-cases ((addr % block_size r == 0) && (len % block_size r == 0))) [
        | inr not_aligned ↦ cc (h, alloc_unaligned not_aligned)
        | inl both ↦
            let al : addr % block_size r ≡ 0 = ground arith in
            elim (Option-cases alloc_error) [
              | inr fails ↦ ground (arith, h, alloc_checked al (ground arith), fails.1)
              | inl fine ↦
                  let (left, run, a) = alloc_succeeds pos al (ground arith) w fine in
                  (subst Allocated (ok_eq _ _ (sym run ∙ h)) a, al)
            ]
      ]

  -- It was for a range that fits.
  pub alloc-fits :
      (after : Blocks) → alloc commit map r addr len blocks ≡ done (ok after) → addr + len ≤ r.len
  alloc-fits after h = elim (Bool-cases ((addr % block_size r == 0) && (len % block_size r == 0))) [
    | inr not_aligned ↦ cc (h, alloc_unaligned not_aligned)
    | inl both ↦ elim (Bool-cases (not (ltb (addr + len) (2 ^ 64)) || ltb r.len (addr + len))) [
      | inr fits ↦ ground (arith, fits)
      | inl outside ↦ ground (arith, h, outside, alloc_checked (ground arith) (ground arith))
    ]
  ]
