-- ===== src/Hv/Ram/Inserts.antt =====
-- What `alloc` adds to the map.
use obliteration.Prelude.{
  ℕ, zero, suc, ◌+◌, ◌*◌, ◌%◌, ◌≡◌, ◌<◌, refl, ap, ◌∙◌, none, some, ◌==◌, if◌then◌else◌, arith,
  done,
}
use native.Mathlib.Nat.{add-mul-mod_self_right}
use obliteration.Hv.Ram.{BlockState, locked, Blocks, insert_new, lock_new}
use obliteration.Hv.Ram.Blocks.{
  get_block, Ordered, get_block-insert, insert_new-Ordered, insert_new-done,
}

-- The addresses of `n` blocks from `addr` on are locked, and whatever was there stays.
pub record Locks (n step addr : ℕ) (blocks : Blocks) : Type 0 where
  pub after : Blocks
  pub run : lock_new n step addr blocks ≡ done after
  pub keeps : (x : ℕ) (s : BlockState) → get_block blocks x ≡ some s → get_block after x ≡ some s
  pub adds : (i : ℕ) → i < n → get_block after (addr + i * step) ≡ some locked
  pub order : Ordered step 0 after

lock_new-suc :
    (n step addr : ℕ) (blocks rest after : Blocks)
    → insert_new addr locked blocks ≡ done rest
    → lock_new n step (addr + step) rest ≡ done after
    → lock_new (suc n) step addr blocks ≡ done after
unfolding lock_new
lock_new-suc n step addr blocks rest after h k = ground arith

next_aligned : (addr step : ℕ) → 0 < step → addr % step ≡ 0 → (addr + step) % step ≡ 0
next_aligned addr step pos h = ap (λ a. a % step) one_more ∙ add-mul-mod_self_right addr 1 step ∙ h
  where
    one_more : addr + step ≡ addr + 1 * step
    one_more = omega arith

later_free :
    (blocks : Blocks) (n step addr : ℕ)
    → ((i : ℕ) → i < suc n → get_block blocks (addr + i * step) ≡ none)
    → (i : ℕ) → i < n
    → get_block blocks (addr + step + i * step) ≡ none
later_free blocks n step addr free i h =
    ap (λ a. get_block blocks a) (omega arith) ∙ free (suc i) (omega arith)

first_or_later :
    (n step addr : ℕ) (blocks : Blocks) (r : Locks n step (addr + step) blocks) (i : ℕ)
    → i < suc n
    → get_block blocks addr ≡ some locked
    → get_block r.after (addr + i * step) ≡ some locked
first_or_later n step addr blocks r zero h first =
    ap (λ a. get_block r.after a) (omega arith) ∙ r.keeps addr locked first
first_or_later n step addr blocks r (suc i) h first =
    ap (λ a. get_block r.after a) (omega arith) ∙ r.adds i (omega arith)

pub lock_new-Locks :
    (n step addr : ℕ) (blocks : Blocks)
    → 0 < step
    → addr % step ≡ 0
    → Ordered step 0 blocks
    → ((i : ℕ) → i < n → get_block blocks (addr + i * step) ≡ none)
    → Locks n step addr blocks
lock_new-Locks zero step addr blocks pos al w free = record {
  after = blocks;
  run = unfold lock_new in refl;
  keeps = λ x s h. h;
  adds = λ i h. absurd (omega arith);
  order = w;
}
lock_new-Locks (suc n) step addr blocks pos al w free =
    let first =
      insert_new-done addr locked blocks
        (ap (λ a. get_block blocks a) (omega arith) ∙ free 0 (omega arith)) in
    let got : (x : ℕ)
        → get_block first.0 x ≡ (if x == addr then some locked else get_block blocks x) =
      λ x. get_block-insert addr x locked blocks first.0 first.1 in
    let absent : get_block blocks addr ≡ none =
      ap (λ a. get_block blocks a) (omega arith) ∙ free 0 (omega arith) in
    let r =
      lock_new-Locks n step (addr + step) first.0 pos (next_aligned addr step pos al)
        (insert_new-Ordered step 0 addr locked blocks first.0 (omega arith) al w first.1)
        (λ i h.
          got (addr + step + i * step) ∙ ground (arith, later_free blocks n step addr free i h)) in
    record {
      after = r.after;
      run = lock_new-suc n step addr blocks first.0 r.after first.1 r.run;
      keeps = λ x s h. r.keeps x s (ground (arith, got x, absent, h));
      adds = λ i h. first_or_later n step addr first.0 r i h (ground (arith, got addr));
      order = r.order;
    }
