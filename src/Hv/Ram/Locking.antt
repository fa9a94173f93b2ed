-- ===== src/Hv/Ram/Locking.antt =====
-- What a round of `lock` does to the map.
use obliteration.Prelude.{
  ℕ, ◌+◌, ◌*◌, ◌%◌, ◌≡◌, ◌<◌, ◌≤◌, refl, sym, ap, ◌∙◌, true, false, some, arith, subst, Bool-cases,
  inl, inr, ◌⊎◌, dec_lt,
}
use native.Mathlib.Nat.{mul-le-mul_right}
use obliteration.Prelude.Steps.{steps_between, step_aligned}
use obliteration.Hv.Ram.{
  locked, unlocked, Blocks, in_range, Stop, hole, busy, swept, Pass, lock_pass, LockRound,
  lock_waits, taken, refused, lock_round, unlock_range,
}
use obliteration.Hv.Ram.Blocks.{get_block, Ordered, get_block-unlock, unlock_range-Ordered}
use obliteration.Hv.Ram.Frees.{get_block-aligned}
use obliteration.Hv.Ram.Passes.{Passed, lock_pass-Passed}

-- The blocks between the two addresses were unlocked and now are locked, and nothing that was locked
-- has changed.
pub record Grows (step from to : ℕ) (before after : Blocks) : Type 0 where
  pub upwards : from ≤ to
  pub aligned : to % step ≡ 0
  pub were : (x : ℕ) → x % step ≡ 0 → in_range from to x ≡ true → get_block before x ≡ some unlocked
  pub now : (x : ℕ) → x % step ≡ 0 → in_range from to x ≡ true → get_block after x ≡ some locked
  pub keeps : (x : ℕ) → get_block before x ≡ some locked → get_block after x ≡ some locked
  pub order : Ordered step 0 after

pub few_steps : (i n step from x : ℕ) → x ≡ from + i * step → x < from + n * step → i < n
few_steps i n step from x e h = elim (dec_lt i n) [
  | yes below ↦ below
  | no above ↦
      let over : n * step ≤ i * step = mul-le-mul_right step (omega arith) in absurd (omega arith)
]

Passed-Grows :
    (start end step next : ℕ) (blocks : Blocks)
    → next % step ≡ 0
    → (p : Passed start end step next 0 blocks)
    → Grows step next p.result.next blocks p.result.blocks
Passed-Grows start end step next blocks al p = record {
  upwards = omega (arith, p.stops_at);
  aligned = ap (λ t. t % step) p.stops_at ∙ step_aligned next p.count step al;
  were = λ x a h. at_step (λ y. get_block blocks y ≡ some unlocked) p.were x a h;
  now = λ x a h. at_step (λ y. get_block p.result.blocks y ≡ some locked) p.now x a h;
  keeps = p.keeps;
  order = p.order;
}
  where
    at_step :
        (P : ℕ → Type 0)
        → ((i : ℕ) → i < p.count → P (next + i * step))
        → (x : ℕ) → x % step ≡ 0
        → in_range next p.result.next x ≡ true
        → P x
    at_step P h x a k =
        let (i, e) = steps_between next x step al a (ground arith) in
        subst P (sym e) (h i (few_steps i p.count step next x e (ground (arith, p.stops_at))))

-- How the blocks that the call has locked grow from `next` on, or how they are given back.
abbrev pub LockResult : ℕ → ℕ → ℕ → ℕ → Blocks → LockRound → Type 0
LockResult step begin next end blocks (lock_waits after next') = Grows step next next' blocks after
LockResult step begin next end blocks (taken after) =
    (to : ℕ) × (end ≤ to) × Grows step next to blocks after
LockResult step begin next end blocks (refused after) =
    ((x : ℕ)
      → get_block blocks x ≡ some locked
      → in_range begin next x ≡ false
      → get_block after x ≡ some locked)
    × Ordered step 0 after

gives_back :
    (step begin next to : ℕ) (blocks after : Blocks)
    → Ordered step 0 blocks
    → Grows step next to blocks after
    → LockResult step begin next to blocks (refused (unlock_range begin to after))
gives_back step begin next to blocks after w g = (
  λ x h k. elim (Bool-cases (in_range begin to x)) [
    | inr outside ↦ get_block-unlock begin to x after outside ∙ g.keeps x h
    | inl inside ↦ cc (h, g.were x (get_block-aligned step 0 x locked blocks w h) (ground arith))
  ],
  unlock_range-Ordered step 0 begin to after g.order,
)

module _ (step begin next end : ℕ) (blocks : Blocks) where
  abbrev round : LockRound
  round = lock_round step begin next end blocks

  round_busy :
      (p : Pass)
      → lock_pass next end step next blocks ≡ p
      → p.stop ≡ busy
      → round ≡ lock_waits p.blocks p.next
  unfolding lock_round
  round_busy p h k = ground arith

  round_hole :
      (p : Pass)
      → lock_pass next end step next blocks ≡ p
      → p.stop ≡ hole
      → round ≡ refused (unlock_range begin p.next p.blocks)
  unfolding lock_round
  round_hole p h k = ground arith

  round_short :
      (p : Pass)
      → lock_pass next end step next blocks ≡ p
      → p.stop ≡ swept
      → p.next < end
      → round ≡ refused (unlock_range begin p.next p.blocks)
  unfolding lock_round
  round_short p h k l = ground arith

  lock_round-taken :
      (p : Pass)
      → lock_pass next end step next blocks ≡ p
      → p.stop ≡ swept
      → end ≤ p.next
      → round ≡ taken p.blocks
  unfolding lock_round
  lock_round-taken p h k l = ground arith

  abbrev Fits : LockRound → Type 0
  Fits = LockResult step begin next end blocks

  stop_cases : (s : Stop) → (s ≡ busy) ⊎ ((s ≡ hole) ⊎ (s ≡ swept))
  stop_cases busy = inl refl
  stop_cases hole = inr (inl refl)
  stop_cases swept = inr (inr refl)

  -- A round of `lock` that waits or succeeds has locked the blocks from `next` up to where it waits, or
  -- to the end, which were all unlocked, and a round that fails leaves locked what others have locked.
  pub lock_round-LockResult : 0 < step → next % step ≡ 0 → Ordered step 0 blocks → Fits round
  lock_round-LockResult pos al w =
      let p = lock_pass-Passed next end step next 0 blocks pos w in
      let g = Passed-Grows next end step next blocks al p in
      let back = gives_back step begin next p.result.next blocks p.result.blocks w g in
      elim (stop_cases p.result.stop) [
        | inl waits ↦ subst Fits (sym (round_busy p.result p.run waits)) g
        | inr (inl fails) ↦ subst Fits (sym (round_hole p.result p.run fails)) back
        | inr (inr sweeps) ↦ elim (dec_lt p.result.next end) [
          | yes short ↦ subst Fits (sym (round_short p.result p.run sweeps short)) back
          | no whole ↦
              subst Fits (sym (lock_round-taken p.result p.run sweeps (omega arith)))
                (p.result.next, omega arith, g)
        ]
      ]
