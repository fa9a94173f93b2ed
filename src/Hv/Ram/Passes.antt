-- ===== src/Hv/Ram/Passes.antt =====
-- What a pass of `lock` over the map locks.
use obliteration.Prelude.{
  ℕ, zero, suc, ◌+◌, ◌*◌, ◌≡◌, ◌≢◌, ◌<◌, refl, true, false, some, [], ◌∷◌, arith, Bool-cases, inl,
  inr, ℕ_discrete, ◌⊎◌,
}
use obliteration.Hv.Ram.{
  BlockState, locked, unlocked, Blocks, in_range, Stop, hole, busy, swept, Pass, behind, lock_pass,
}
use obliteration.Hv.Ram.Blocks.{get_block, Ordered, get_block-cons}

-- The pass has locked `count` blocks from `next` on, which were all unlocked, and nothing that was
-- locked is changed.
pub record Passed (start end step next lo : ℕ) (blocks : Blocks) : Type 0 where
  pub result : Pass
  pub run : lock_pass start end step next blocks ≡ result
  pub count : ℕ
  pub stops_at : result.next ≡ next + count * step
  pub were : (i : ℕ) → i < count → get_block blocks (next + i * step) ≡ some unlocked
  pub now : (i : ℕ) → i < count → get_block result.blocks (next + i * step) ≡ some locked
  pub within : (i : ℕ) → i < count → in_range start end (next + i * step) ≡ true
  pub keeps : (x : ℕ) → get_block blocks x ≡ some locked → get_block result.blocks x ≡ some locked
  pub order : Ordered step lo result.blocks

pass_nil :
    (start end step next : ℕ)
    → lock_pass start end step next [] ≡ record { blocks = []; next = next; stop = swept }
unfolding lock_pass
pass_nil start end step next = refl

pass_out :
    (start end step next : ℕ) (b : ℕ × BlockState) (rest : Blocks) (p : Pass)
    → in_range start end b.0 ≡ false
    → lock_pass start end step next rest ≡ p
    → lock_pass start end step next (b ∷ rest) ≡ behind b p
unfolding lock_pass
pass_out start end step next b rest p h k = ground arith

pass_hole :
    (start end step next : ℕ) (b : ℕ × BlockState) (rest : Blocks)
    → in_range start end b.0 ≡ true
    → b.0 ≢ next
    → lock_pass start end step next (b ∷ rest)
      ≡ record { blocks = b ∷ rest; next = next; stop = hole }
unfolding lock_pass
pass_hole start end step next b rest h k = ground arith

pass_busy :
    (start end step next : ℕ) (b : ℕ × BlockState) (rest : Blocks)
    → in_range start end b.0 ≡ true
    → b.0 ≡ next
    → b.1 ≡ locked
    → lock_pass start end step next (b ∷ rest)
      ≡ record { blocks = b ∷ rest; next = next; stop = busy }
unfolding lock_pass
pass_busy start end step next b rest h k l = ground arith

pass_take :
    (start end step next : ℕ) (b : ℕ × BlockState) (rest : Blocks) (p : Pass)
    → in_range start end b.0 ≡ true
    → b.0 ≡ next
    → b.1 ≡ unlocked
    → lock_pass start end step (next + step) rest ≡ p
    → lock_pass start end step next (b ∷ rest) ≡ behind (b.0, locked) p
unfolding lock_pass
pass_take start end step next b rest p h k l m = ground arith

Passed-none :
    (start end step next lo : ℕ) (blocks : Blocks) (stop : Stop)
    → lock_pass start end step next blocks ≡ record { blocks = blocks; next = next; stop = stop }
    → Ordered step lo blocks
    → Passed start end step next lo blocks
Passed-none start end step next lo blocks stop h w = record {
  result = record { blocks = blocks; next = next; stop = stop };
  run = h;
  count = 0;
  stops_at = omega arith;
  were = λ i k. absurd (omega arith);
  now = λ i k. absurd (omega arith);
  within = λ i k. absurd (omega arith);
  keeps = λ x k. k;
  order = w;
}

Passed-out :
    (start end step next lo : ℕ) (b : ℕ × BlockState) (rest : Blocks)
    → in_range start end b.0 ≡ false
    → Ordered step lo (b ∷ rest)
    → Passed start end step next (b.0 + 1) rest
    → Passed start end step next lo (b ∷ rest)
Passed-out start end step next lo b rest h w p = record {
  result = behind b p.result;
  run = pass_out start end step next b rest p.result h p.run;
  count = p.count;
  stops_at = p.stops_at;
  were = λ i k. ground (arith, get_block-cons b rest (next + i * step), p.were i k, p.within i k);
  now = λ i k.
      ground (arith, get_block-cons b p.result.blocks (next + i * step), p.now i k, p.within i k);
  within = p.within;
  keeps =
      λ x k. ground (arith, get_block-cons b rest x, get_block-cons b p.result.blocks x, p.keeps x);
  order = (w.0, w.1, p.order);
}

Passed-take :
    (start end step next lo : ℕ) (b : ℕ × BlockState) (rest : Blocks)
    → 0 < step
    → in_range start end b.0 ≡ true
    → b.0 ≡ next
    → b.1 ≡ unlocked
    → Ordered step lo (b ∷ rest)
    → Passed start end step (next + step) (b.0 + 1) rest
    → Passed start end step next lo (b ∷ rest)
Passed-take start end step next lo b rest pos h k l w p = record {
  result = behind (b.0, locked) p.result;
  run = pass_take start end step next b rest p.result h k l p.run;
  count = suc p.count;
  stops_at = omega (arith, p.stops_at);
  were = were_all;
  now = now_all;
  within = within_all;
  keeps = λ x m.
      ground
        (arith, get_block-cons b rest x, get_block-cons (b.0, locked) p.result.blocks x, p.keeps x);
  order = (w.0, w.1, p.order);
}
  where
    shift : (i : ℕ) → next + suc i * step ≡ next + step + i * step
    shift i = omega arith

    were_all : (i : ℕ) → i < suc p.count → get_block (b ∷ rest) (next + i * step) ≡ some unlocked
    were_all zero m = ground (arith, get_block-cons b rest (next + 0 * step))
    were_all (suc i) m =
        ground (arith, get_block-cons b rest (next + suc i * step), shift i, p.were i (omega arith))

    now_all :
        (i : ℕ)
        → i < suc p.count
        → get_block ((b.0, locked) ∷ p.result.blocks) (next + i * step) ≡ some locked
    now_all zero m = ground (arith, get_block-cons (b.0, locked) p.result.blocks (next + 0 * step))
    now_all (suc i) m = ground (
      arith,
      get_block-cons (b.0, locked) p.result.blocks (next + suc i * step),
      shift i,
      p.now i (omega arith),
    )

    within_all : (i : ℕ) → i < suc p.count → in_range start end (next + i * step) ≡ true
    within_all zero m = ground arith
    within_all (suc i) m = ground (arith, shift i, p.within i (omega arith))

pub state_cases : (s : BlockState) → (s ≡ locked) ⊎ (s ≡ unlocked)
state_cases locked = inl refl
state_cases unlocked = inr refl

pub lock_pass-Passed :
    (start end step next lo : ℕ) (blocks : Blocks)
    → 0 < step
    → Ordered step lo blocks
    → Passed start end step next lo blocks
lock_pass-Passed start end step next lo [] pos w =
    Passed-none start end step next lo [] swept (pass_nil start end step next) tt
lock_pass-Passed start end step next lo (b ∷ rest) pos w =
    elim (Bool-cases (in_range start end b.0)) [
      | inr out ↦
          Passed-out start end step next lo b rest out w
            (lock_pass-Passed start end step next (b.0 + 1) rest pos w.2)
      | inl there ↦ elim (ℕ_discrete b.0 next) [
        | no other ↦
            Passed-none start end step next lo (b ∷ rest) hole
              (pass_hole start end step next b rest there other) w
        | yes same ↦ elim (state_cases b.1) [
          | inl taken ↦
              Passed-none start end step next lo (b ∷ rest) busy
                (pass_busy start end step next b rest there same taken) w
          | inr free ↦
              Passed-take start end step next lo b rest pos there same free w
                (lock_pass-Passed start end step (next + step) (b.0 + 1) rest pos w.2)
        ]
      ]
    ]
