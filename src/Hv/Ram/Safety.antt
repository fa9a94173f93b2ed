-- ===== src/Hv/Ram/Safety.antt =====
-- The blocks that a thread has locked are its own, and stay allocated.
use obliteration.Prelude.{
  ℕ, ◌%◌, ◌≡◌, ◌≢◌, ◌<◌, ◌≤◌, sym, ap, ◌∙◌, Bool, true, false, some, arith, subst, Bool-cases, inl,
  inr, ◌⊎◌, ℕ_discrete,
}
use obliteration.Hv.Ram.{locked, Blocks, Ram, block_size}
use obliteration.Hv.Ram.Blocks.{get_block, Ordered}
use obliteration.Hv.Ram.System.{
  Phase, idle, locking, holding, freeing, Sys, set_phase, start_of, holds,
}

module _ (commit map decommit : ℕ → ℕ → Bool) (r : Ram) (pos : 0 < block_size r) where
  -- How far a call of `lock` has come is at a block, from the start of its range on.
  abbrev pub InStep : Phase → Type 0
  InStep idle = Unit {0}
  InStep (locking addr len next) =
      (next % block_size r ≡ 0) × (start_of commit map decommit r addr ≤ next)
  InStep (holding addr len) = Unit {0}
  InStep (freeing addr end) = Unit {0}

  abbrev pub has : Phase → ℕ → Bool
  has = holds commit map decommit r

  -- The map is in order; each block that a thread has locked is there and locked; no block is locked
  -- by two threads.
  pub record Safe (s : Sys) : Type 0 where
    pub order : Ordered (block_size r) 0 s.blocks
    pub owned :
        (t x : ℕ)
        → x % block_size r ≡ 0
        → has (s.phase t) x ≡ true
        → get_block s.blocks x ≡ some locked
    pub alone :
        (t u x : ℕ)
        → x % block_size r ≡ 0
        → has (s.phase t) x ≡ true
        → has (s.phase u) x ≡ true
        → t ≡ u
    pub in_step : (t : ℕ) → InStep (s.phase t)

  -- A step of thread `t` that touches no block another thread has locked.
  pub record Fair (s : Sys) (t : ℕ) (p : Phase) (after : Blocks) : Type 0 where
    pub keeps :
        (x : ℕ)
        → get_block s.blocks x ≡ some locked
        → has (s.phase t) x ≡ false
        → get_block after x ≡ some locked
    pub takes : (x : ℕ) → x % block_size r ≡ 0 → has p x ≡ true → get_block after x ≡ some locked
    pub fresh :
        (x : ℕ)
        → x % block_size r ≡ 0
        → has p x ≡ true
        → (has (s.phase t) x ≡ true) ⊎ (get_block s.blocks x ≢ some locked)
    pub order : Ordered (block_size r) 0 after
    pub in_step : InStep p

  abbrev pub moved : Sys → ℕ → Phase → Blocks → Sys
  moved s t p after = record { blocks = after; phase = set_phase s.phase t p }

  set_same : (s : Sys) (t u : ℕ) (p : Phase) → u ≡ t → set_phase s.phase t p u ≡ p
  set_same s t u p h = ground arith

  set_other : (s : Sys) (t u : ℕ) (p : Phase) → u ≢ t → set_phase s.phase t p u ≡ s.phase u
  set_other s t u p h = ground arith

  not_mine :
      (s : Sys) (t u x : ℕ)
      → Safe s
      → u ≢ t
      → x % block_size r ≡ 0
      → has (s.phase u) x ≡ true
      → has (s.phase t) x ≡ false
  not_mine s t u x i ne al h = elim (Bool-cases (has (s.phase t) x)) [
    | inr free ↦ free
    | inl mine ↦ absurd (ne (i.alone u t x al h mine))
  ]

  no_overlap :
      (s : Sys) (t u x : ℕ) (p : Phase) (after : Blocks)
      → Safe s
      → Fair s t p after
      → u ≢ t
      → x % block_size r ≡ 0
      → has p x ≡ true
      → has (s.phase u) x ≡ true
      → ⊥
  no_overlap s t u x p after i f ne al h k = elim (f.fresh x al h) [
    | inl mine ↦ ne (i.alone u t x al k mine)
    | inr other ↦ other (i.owned u x al k)
  ]

  pub Fair-Safe :
      (s : Sys) (t : ℕ) (p : Phase) (after : Blocks)
      → Safe s
      → Fair s t p after
      → Safe (moved s t p after)
  Fair-Safe s t p after i f = record {
    order = f.order;
    owned = owned;
    alone = alone;
    in_step = in_step;
  }
    where
      owned :
          (u x : ℕ)
          → x % block_size r ≡ 0
          → has (set_phase s.phase t p u) x ≡ true
          → get_block after x ≡ some locked
      owned u x al h = elim (ℕ_discrete u t) [
        | yes same ↦ f.takes x al (sym (ap (λ q. has q x) (set_same s t u p same)) ∙ h)
        | no ne ↦
            let k = sym (ap (λ q. has q x) (set_other s t u p ne)) ∙ h in
            f.keeps x (i.owned u x al k) (not_mine s t u x i ne al k)
      ]

      alone :
          (u v x : ℕ)
          → x % block_size r ≡ 0
          → has (set_phase s.phase t p u) x ≡ true
          → has (set_phase s.phase t p v) x ≡ true
          → u ≡ v
      alone u v x al h k = elim (ℕ_discrete u t) [
        | yes same ↦ elim (ℕ_discrete v t) [
          | yes same' ↦ same ∙ sym same'
          | no ne ↦ absurd (
              no_overlap s t v x p after i f ne al
                (sym (ap (λ q. has q x) (set_same s t u p same)) ∙ h)
                (sym (ap (λ q. has q x) (set_other s t v p ne)) ∙ k))
        ]
        | no ne ↦ elim (ℕ_discrete v t) [
          | yes same' ↦ absurd (
              no_overlap s t u x p after i f ne al
                (sym (ap (λ q. has q x) (set_same s t v p same')) ∙ k)
                (sym (ap (λ q. has q x) (set_other s t u p ne)) ∙ h))
          | no ne' ↦
              i.alone u v x al (sym (ap (λ q. has q x) (set_other s t u p ne)) ∙ h)
                (sym (ap (λ q. has q x) (set_other s t v p ne')) ∙ k)
        ]
      ]

      in_step : (u : ℕ) → InStep (set_phase s.phase t p u)
      in_step u = elim (ℕ_discrete u t) [
        | yes same ↦ subst InStep (sym (set_same s t u p same)) f.in_step
        | no ne ↦ subst InStep (sym (set_other s t u p ne)) (i.in_step u)
      ]
