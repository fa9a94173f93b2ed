-- ===== src/Hv/Ram/Steps.antt =====
-- Each step of a thread is fair to the others, so the invariant holds wherever the steps lead.
use obliteration.Prelude.{
  ℕ, ◌+◌, ◌%◌, ◌≡◌, ◌<◌, refl, sym, ap, ◌∙◌, Bool, true, false, some, arith, subst, inl, inr,
  dec_lt, done, ok,
}
use obliteration.Prelude.Steps.{down_aligned}
use obliteration.Hv.Ram.{
  locked, Blocks, in_range, Ram, block_size, LockRound, lock_round, lock_bounds, drop_lock,
  FreeRound, free_round, alloc,
}
use obliteration.Hv.Ram.Blocks.{get_block, Ordered, get_block-unlock, unlock_range-Ordered}
use obliteration.Hv.Ram.Allocs.{alloc-Allocated}
use obliteration.Hv.Ram.Locking.{Grows, LockResult, lock_round-LockResult}
use obliteration.Hv.Ram.Removals.{FreeResult, free_round-FreeResult}
use obliteration.Hv.Ram.System.{
  Phase, idle, locking, holding, freeing, Sys, set_phase, initial, start_of, Step, allocs,
  lock_starts, lock_pauses, lock_succeeds, lock_fails, drops, free_starts, free_pauses, free_ends,
  free_breaks, Reach, start, onward, holds,
}
use obliteration.Hv.Ram.Safety.{InStep, Safe, Fair, Fair-Safe}

module _ (commit map decommit : ℕ → ℕ → Bool) (r : Ram) (pos : 0 < block_size r) where
  abbrev FairTo : Sys → ℕ → Phase → Blocks → Type 0
  FairTo s t p after = Fair commit map decommit r pos s t p after

  abbrev SafeSys : Sys → Type 0
  SafeSys s = Safe commit map decommit r pos s

  abbrev mine : Phase → ℕ → Bool
  mine p x = holds commit map decommit r p x

  -- A thread that ends up holding nothing, and has changed no block of the others.
  gives_up :
      (s : Sys) (t : ℕ) (p : Phase) (after : Blocks)
      → ((x : ℕ) → mine p x ≡ false)
      → InStep commit map decommit r pos p
      → ((x : ℕ)
          → get_block s.blocks x ≡ some locked
          → mine (s.phase t) x ≡ false
          → get_block after x ≡ some locked)
      → Ordered (block_size r) 0 after
      → FairTo s t p after
  gives_up s t p after free step k w = record {
    keeps = k;
    takes = λ x al h. cc (h, free x);
    fresh = λ x al h. cc (h, free x);
    order = w;
    in_step = step;
  }

  allocs_fairly :
      (s : Sys) (t addr len : ℕ) (after : Blocks)
      → SafeSys s
      → alloc commit map r addr len s.blocks ≡ done (ok after)
      → FairTo s t (holding addr len) after
  allocs_fairly s t addr len after i h =
      let (a, al) = alloc-Allocated commit map r addr len s.blocks after pos i.order h in
      record {
        keeps = λ x k l. a.keeps x locked k;
        takes = λ x m k. a.now x m (ground (arith, al));
        fresh = λ x m k. inr (λ l. cc (l, a.were x (ground (arith, al))));
        order = a.order;
        in_step = tt;
      }

  fair_growth :
      (s : Sys) (t addr len next to : ℕ) (p : Phase) (after : Blocks)
      → SafeSys s
      → s.phase t ≡ locking addr len next
      → Grows (block_size r) next to s.blocks after
      → ((x : ℕ) → mine p x ≡ true → in_range (start_of commit map decommit r addr) to x ≡ true)
      → InStep commit map decommit r pos p
      → FairTo s t p after
  fair_growth s t addr len next to p after i h g reach step = record {
    keeps = λ x k l. g.keeps x k;
    takes = λ x al k. elim (dec_lt x next) [
      | yes old ↦ g.keeps x (i.owned t x al (ap (λ q. mine q x) h ∙ ground (arith, reach x k)))
      | no new ↦ g.now x al (ground (arith, reach x k))
    ];
    fresh = λ x al k. elim (dec_lt x next) [
      | yes old ↦ inl (ap (λ q. mine q x) h ∙ ground (arith, reach x k))
      | no new ↦ inr (λ l. cc (l, g.were x al (ground (arith, reach x k))))
    ];
    order = g.order;
    in_step = step;
  }

  round_result :
      (s : Sys) (t addr len next : ℕ) (result : LockRound)
      → SafeSys s
      → s.phase t ≡ locking addr len next
      → lock_round (block_size r) (start_of commit map decommit r addr) next (addr + len) s.blocks
        ≡ result
      → LockResult
          (block_size r)
          (start_of commit map decommit r addr)
          next
          (addr + len)
          s.blocks
          result
  round_result s t addr len next result i h e =
      let step = subst (InStep commit map decommit r pos) h (i.in_step t) in
      subst
        (LockResult (block_size r) (start_of commit map decommit r addr) next (addr + len) s.blocks)
        e
        (lock_round-LockResult (block_size r) (start_of commit map decommit r addr) next
          (addr + len) s.blocks pos step.0 i.order)

  free_result :
      (s : Sys) (addr end : ℕ) (result : FreeRound)
      → SafeSys s
      → free_round decommit (block_size r) addr end s.blocks ≡ result
      → FreeResult decommit (block_size r) addr end s.blocks result
  free_result s addr end result i e =
      subst (FreeResult decommit (block_size r) addr end s.blocks) e
        (free_round-FreeResult decommit (block_size r) addr end s.blocks pos i.order)

  lands :
      {s' : Sys} (s : Sys) (t : ℕ) (p : Phase) (after : Blocks)
      → SafeSys s
      → FairTo s t p after
      → s' ≡ record { blocks = after; phase = set_phase s.phase t p }
      → SafeSys s'
  lands s t p after i f e =
      subst SafeSys (sym e) (Fair-Safe commit map decommit r pos s t p after i f)

  bounds_start :
      (addr len begin end : ℕ)
      → lock_bounds r addr len ≡ some (begin, end)
      → begin ≡ start_of commit map decommit r addr
  unfolding lock_bounds
  bounds_start addr len begin end h = ground arith

  dropped :
      (addr len : ℕ) (blocks : Blocks) (x : ℕ)
      → in_range (start_of commit map decommit r addr) (addr + len) x ≡ false
      → get_block (drop_lock r addr len blocks) x ≡ get_block blocks x
  unfolding drop_lock
  dropped addr len blocks x h =
      get_block-unlock (start_of commit map decommit r addr) (addr + len) x blocks h

  drop_Ordered :
      (addr len : ℕ) (blocks : Blocks)
      → Ordered (block_size r) 0 blocks
      → Ordered (block_size r) 0 (drop_lock r addr len blocks)
  unfolding drop_lock
  drop_Ordered addr len blocks w = unlock_range-Ordered (block_size r) 0 _ _ blocks w

  pub Step-Safe : {s s' : Sys} → Step commit map decommit r s s' → SafeSys s → SafeSys s'
  Step-Safe {s} (allocs t addr len after h a e) i =
      lands s t (holding addr len) after i (allocs_fairly s t addr len after i a) e
  Step-Safe {s} (lock_starts t addr len begin end h b e) i =
      let same = bounds_start addr len begin end b in
      lands s t (locking addr len begin) s.blocks i
        (gives_up s t (locking addr len begin) s.blocks (λ x. ground (arith, same))
          (ap (λ y. y % block_size r) same ∙ down_aligned addr (block_size r), omega (arith, same))
          (λ x k l. k) i.order)
        e
  Step-Safe {s} (lock_pauses t addr len next next' after h a e) i =
      let g = round_result s t addr len next _ i h a in
      let step = subst (InStep commit map decommit r pos) h (i.in_step t) in
      lands s t (locking addr len next') after i
        (fair_growth s t addr len next next' (locking addr len next') after i h g (λ x k. k)
          (g.aligned, omega (arith, step.1, g.upwards)))
        e
  Step-Safe {s} (lock_succeeds t addr len next after h a e) i =
      let (to, whole, g) = round_result s t addr len next _ i h a in
      lands s t (holding addr len) after i
        (fair_growth s t addr len next to (holding addr len) after i h g
          (λ x k. ground (arith, whole)) tt)
        e
  Step-Safe {s} (lock_fails t addr len next after h a e) i =
      let (keeps, order) = round_result s t addr len next _ i h a in
      lands s t idle after i
        (gives_up s t idle after (λ x. refl) tt
          (λ x k l. keeps x k (sym (ap (λ q. mine q x) h) ∙ l)) order)
        e
  Step-Safe {s} (drops t addr len h e) i =
      let begin : ℕ = start_of commit map decommit r addr in
      lands s t idle (drop_lock r addr len s.blocks) i
        (gives_up s t idle (drop_lock r addr len s.blocks) (λ x. refl) tt
          (λ x k l. dropped addr len s.blocks x (sym (ap (λ q. mine q x) h) ∙ l) ∙ k)
          (drop_Ordered addr len s.blocks i.order))
        e
  Step-Safe {s} (free_starts t addr len end h a e) i =
      lands s t (freeing addr end) s.blocks i
        (gives_up s t (freeing addr end) s.blocks (λ x. refl) tt (λ x k l. k) i.order) e
  Step-Safe {s} (free_pauses t addr end next after h a e) i =
      let f = free_result s addr end _ i a in
      lands s t (freeing next end) after i
        (gives_up s t (freeing next end) after (λ x. refl) tt (λ x k l. f.0.keeps x k) f.0.order) e
  Step-Safe {s} (free_ends t addr end after h a e) i =
      let f = free_result s addr end _ i a in
      lands s t idle after i (gives_up s t idle after (λ x. refl) tt (λ x k l. f.keeps x k) f.order)
        e
  Step-Safe {s} (free_breaks t addr end h a e) i =
      lands s t idle s.blocks i (gives_up s t idle s.blocks (λ x. refl) tt (λ x k l. k) i.order) e

  initial-Safe : SafeSys initial
  initial-Safe = record {
    order = tt;
    owned = λ t x al h. cc;
    alone = λ t u x al h k. cc;
    in_step = λ t. tt;
  }

  -- Whatever calls of `alloc`, `lock`, `dealloc` and of the guards' `drop` threads have made, in any
  -- order of their rounds: each block that a thread has locked is allocated and locked, no block is
  -- locked by two threads, and the map is in order.
  pub Reach-Safe : {s : Sys} → Reach commit map decommit r initial s → SafeSys s
  Reach-Safe start = initial-Safe
  Reach-Safe (onward past step) = Step-Safe step (Reach-Safe past)
