-- ===== src/Hv/Ram/Removals.antt =====
-- What a round of `dealloc` removes.
use obliteration.Prelude.{
  ℕ, zero, suc, ◌+◌, ◌-◌, ◌*◌, ◌≡◌, ◌≢◌, ◌<◌, ◌≤◌, refl, sym, ap, ◌∙◌, Bool, true, false, none,
  some, [], ◌∷◌, if◌then◌else◌, arith, subst, Bool-cases, inl, inr, ℕ_discrete, Option-cases,
  dec_lt, ◌⊎◌,
}
use native.Mathlib.Nat.{mul-le-mul_right}
use obliteration.Prelude.Steps.{steps_between, steps_count}
use obliteration.Hv.Ram.{
  BlockState, locked, unlocked, Blocks, remove_key, remove_each, unlocked_run, first_in, steps,
  FreeRound, free_waits, freed, free_failed, free_round,
}
use obliteration.Hv.Ram.Blocks.{
  get_block, Ordered, get_block-cons, get_block-nil, get_block-remove, remove_key-Ordered,
  remove_here, remove_later,
}
use obliteration.Hv.Ram.Passes.{state_cases}
use obliteration.Hv.Ram.Frees.{
  get_block-aligned, get_block-below, FirstIn, first_in-none, first_in-FirstIn, RunTo,
  unlocked_run-RunTo,
}

-- The removal of `n` blocks from `addr` on.
pub record Removes (n step addr : ℕ) (blocks : Blocks) : Type 0 where
  pub others :
      (x : ℕ)
      → ((i : ℕ) → i < n → x ≢ addr + i * step)
      → get_block (remove_each n step addr blocks) x ≡ get_block blocks x
  pub gone : (i : ℕ) → i < n → get_block (remove_each n step addr blocks) (addr + i * step) ≡ none
  pub order : Ordered step 0 (remove_each n step addr blocks)

removed :
    (key step lo : ℕ) (blocks : Blocks)
    → Ordered step lo blocks
    → get_block (remove_key key blocks) key ≡ none
removed key step lo [] w = unfold remove_key in get_block-nil key
removed key step lo (b ∷ blocks) w = elim (ℕ_discrete key b.0) [
  | yes here ↦
      ap (λ l. get_block l key) (remove_here key b blocks here)
      ∙ get_block-below step (b.0 + 1) key blocks w.2 (omega arith)
  | no later ↦
      ap (λ l. get_block l key) (remove_later key b blocks later)
      ∙ ground (
        arith,
        get_block-cons b (remove_key key blocks) key,
        removed key step (b.0 + 1) blocks w.2,
      )
]

remove_suc :
    (n step addr : ℕ) (blocks : Blocks)
    → remove_each (suc n) step addr blocks
      ≡ remove_each n step (addr + step) (remove_key addr blocks)
unfolding remove_each
remove_suc n step addr blocks = refl

gone_at :
    (n step addr : ℕ) (first : Blocks) (r : Removes n step (addr + step) first)
    → 0 < step
    → (i : ℕ) → i < suc n
    → get_block first addr ≡ none
    → get_block (remove_each n step (addr + step) first) (addr + i * step) ≡ none
gone_at n step addr first r pos zero h e =
    ap (λ x. get_block (remove_each n step (addr + step) first) x) (omega arith)
    ∙ r.others addr (λ i k same. absurd (omega arith))
    ∙ e
gone_at n step addr first r pos (suc i) h e =
    ap (λ x. get_block (remove_each n step (addr + step) first) x) (omega arith)
    ∙ r.gone i (omega arith)

pub remove_each-Removes :
    (n step addr : ℕ) (blocks : Blocks)
    → 0 < step
    → Ordered step 0 blocks
    → Removes n step addr blocks
remove_each-Removes zero step addr blocks pos w =
    unfold remove_each in
    record { others = λ x h. refl; gone = λ i h. absurd (omega arith); order = w }
remove_each-Removes (suc n) step addr blocks pos w =
    let first = remove_key addr blocks in
    let r =
      remove_each-Removes n step (addr + step) first pos
        (remove_key-Ordered step 0 addr blocks w) in
    record {
      others = λ x h.
          ap (λ l. get_block l x) (remove_suc n step addr blocks)
          ∙ r.others x (λ i k e. h (suc i) (omega arith) (e ∙ omega arith))
          ∙ get_block-remove addr x blocks (λ e. h 0 (omega arith) (e ∙ omega arith));
      gone = λ i h.
          ap (λ l. get_block l (addr + i * step)) (remove_suc n step addr blocks)
          ∙ gone_at n step addr first r pos i h (removed addr step 0 blocks w);
      order = subst (λ l. Ordered step 0 l) (sym (remove_suc n step addr blocks)) r.order;
    }

-- A round has removed every block from `addr` up to `next`, none that was locked, and none outside.
pub record FreesTo (step addr next : ℕ) (blocks left : Blocks) : Type 0 where
  pub keeps : (x : ℕ) → get_block blocks x ≡ some locked → get_block left x ≡ some locked
  pub gone : (x : ℕ) → addr ≤ x → x < next → get_block left x ≡ none
  pub outside : (x : ℕ) → (x < addr) ⊎ (next ≤ x) → get_block left x ≡ get_block blocks x
  pub order : Ordered step 0 left

-- A block of the range from `next` on is locked.
abbrev pub Awaits : ℕ → ℕ → Blocks → Type 0
Awaits next end blocks = (x : ℕ) × (next ≤ x) × (x < end) × (get_block blocks x ≡ some locked)

-- The host has refused to take back a run of memory that starts at an unlocked block of the range.
abbrev pub Refuses : (ℕ → ℕ → Bool) → ℕ → ℕ → Blocks → Type 0
Refuses decommit addr end blocks =
    (key : ℕ) × (len : ℕ) × (addr ≤ key)
    × (key < end)
    × (get_block blocks key ≡ some unlocked)
    × (decommit key len ≡ false)

abbrev pub FreeResult : (ℕ → ℕ → Bool) → ℕ → ℕ → ℕ → Blocks → FreeRound → Type 0
FreeResult decommit step addr end blocks (free_waits left next) =
    FreesTo step addr next blocks left × Awaits next end blocks
FreeResult decommit step addr end blocks (freed left) = FreesTo step addr end blocks left
FreeResult decommit step addr end blocks free_failed = Refuses decommit addr end blocks

module _ (addr end step : ℕ) (blocks : Blocks) (key : ℕ) (rest : Blocks)
    (f : FirstIn addr end step blocks key unlocked rest) (pos : 0 < step)
    (w : Ordered step 0 blocks) (r : RunTo addr end step key rest) (n : ℕ)
    (span : r.result.0 ≡ key + n * step) where
  abbrev run_left : Blocks
  run_left = remove_each (suc n) step key blocks

  abbrev removal : Removes (suc n) step key blocks
  removal = remove_each-Removes (suc n) step key blocks pos w

  index_le : (i : ℕ) → i < suc n → i * step ≤ n * step
  index_le i h = mul-le-mul_right step (omega arith)

  run_keeps : (x : ℕ) → get_block blocks x ≡ some locked → get_block run_left x ≡ some locked
  run_keeps x h = removal.others x apart ∙ h
    where
      apart : (i : ℕ) → i < suc n → x ≢ key + i * step
      apart i k e = elim (ℕ_discrete x key) [
        | yes same ↦ cc (h, f.state, same)
        | no other ↦ absurd (
            omega (
              arith,
              span,
              index_le i k,
              r.spares x (ground (arith, f.within, r.within, index_le i k))
                  (sym (f.after x (omega arith)) ∙ h),
            ))
      ]

  behind_run : (x : ℕ) → r.result.0 < x → (i : ℕ) → i < suc n → x ≢ key + i * step
  behind_run x h i k e = absurd (omega (arith, span, index_le i k))

  before_run : (x : ℕ) → x < key → (i : ℕ) → i < suc n → x ≢ key + i * step
  before_run x h i k e = absurd (omega arith)

  within_run : (x i : ℕ) → x < r.result.0 + step → x ≡ key + i * step → i < suc n
  within_run x i h e = elim (dec_lt i (suc n)) [
    | yes below ↦ below
    | no above ↦
        let over : suc n * step ≤ i * step = mul-le-mul_right step (omega arith) in
        absurd (omega (arith, span))
  ]

  run_gone : (x : ℕ) → addr ≤ x → x < r.result.0 + step → get_block run_left x ≡ none
  run_gone x h k = elim (Option-cases (get_block run_left x)) [
    | inl absent ↦ absent
    | inr there ↦ elim (dec_lt x key) [
      | yes early ↦ removal.others x (before_run x early) ∙ f.before x h early
      | no late ↦
          let al = get_block-aligned step 0 x there.0 run_left removal.order there.1 in
          let (i, e) = steps_between key x step f.aligned al (omega arith) in
          ap (λ y. get_block run_left y) e ∙ removal.gone i (within_run x i k e)
    ]
  ]

  run_complete : r.result.1 ≡ false → (x : ℕ) → addr ≤ x → x < end → get_block run_left x ≡ none
  run_complete e x h k = elim (dec_lt x (r.result.0 + step)) [
    | yes near ↦ run_gone x h near
    | no far ↦
        removal.others x (behind_run x (omega arith))
        ∙ f.after x (omega (arith, r.from))
        ∙ r.complete e x (ground arith) (omega arith)
  ]

  run_outside :
      (next x : ℕ)
      → r.result.0 < next
      → (x < addr) ⊎ (next ≤ x)
      → get_block run_left x ≡ get_block blocks x
  run_outside next x past (inl early) =
      removal.others x (before_run x (ground (arith, f.within, early)))
  run_outside next x past (inr late) = removal.others x (behind_run x (omega arith))

  run_waits : FreesTo step addr (r.result.0 + step) blocks run_left
  run_waits = record {
    keeps = run_keeps;
    gone = run_gone;
    outside = λ x h. run_outside (r.result.0 + step) x (omega arith) h;
    order = removal.order;
  }

  run_stops : r.result.1 ≡ true → Awaits (r.result.0 + step) end blocks
  run_stops e =
      let (x, inside, later, held) = r.stops e in
      let there : get_block blocks x ≡ some locked =
        f.after x (omega (arith, r.from, later)) ∙ held in
      let (k, at) =
        steps_between r.result.0 x step r.aligned (get_block-aligned step 0 x locked blocks w there)
          (omega (arith, later)) in
      (x, next_step k x at later, ground (arith, inside), there)
    where
      next_step : (k x : ℕ) → x ≡ r.result.0 + k * step → r.result.0 < x → r.result.0 + step ≤ x
      next_step zero x e h = absurd (omega arith)
      next_step (suc k) x e h =
          let once : 1 * step ≤ suc k * step = mul-le-mul_right step (omega arith) in
          omega (arith, e, once)

  run_ends : r.result.1 ≡ false → FreesTo step addr end blocks run_left
  run_ends e = record {
    keeps = run_keeps;
    gone = run_complete e;
    outside = λ x h. run_outside end x r.within h;
    order = removal.order;
  }

module _ (decommit : ℕ → ℕ → Bool) (step addr end : ℕ) (blocks : Blocks) where
  abbrev round : FreeRound
  round = free_round decommit step addr end blocks

  free_round-none : first_in addr end blocks ≡ none → round ≡ freed blocks
  unfolding free_round
  free_round-none h = ground arith

  round_locked :
      (f : ℕ × BlockState × Blocks)
      → first_in addr end blocks ≡ some f
      → f.1 ≡ locked
      → round ≡ free_waits blocks addr
  unfolding free_round
  round_locked f h k = ground arith

  round_fails :
      (f : ℕ × BlockState × Blocks)
      → first_in addr end blocks ≡ some f
      → f.1 ≡ unlocked
      → decommit f.0 ((unlocked_run addr end f.0 f.2).0 + step - f.0) ≡ false
      → round ≡ free_failed
  unfolding free_round
  round_fails f h k d = ground arith

  abbrev round_left : ℕ × BlockState × Blocks → Blocks
  round_left f =
      let stop : ℕ = (unlocked_run addr end f.0 f.2).0 + step in
      remove_each (steps f.0 stop step) step f.0 blocks

  round_runs :
      (f : ℕ × BlockState × Blocks)
      → first_in addr end blocks ≡ some f
      → f.1 ≡ unlocked
      → decommit f.0 ((unlocked_run addr end f.0 f.2).0 + step - f.0) ≡ true
      → round ≡ (
          if (unlocked_run addr end f.0 f.2).1
          then free_waits (round_left f) ((unlocked_run addr end f.0 f.2).0 + step)
          else freed (round_left f))
  unfolding free_round
  round_runs f h k d = ground arith

  FreeResult-run :
      (key n : ℕ) (rest : Blocks)
      → (f : FirstIn addr end step blocks key unlocked rest) → 0 < step
      → Ordered step 0 blocks
      → (r : RunTo addr end step key rest) → r.result.0 ≡ key + n * step
      → FreeResult decommit step addr end blocks (
          if r.result.1
          then free_waits (remove_each (suc n) step key blocks) (r.result.0 + step)
          else freed (remove_each (suc n) step key blocks))
  FreeResult-run key n rest f pos w r span = elim (Bool-cases r.result.1) [
    | inl more ↦ rw more (
      run_waits addr end step blocks key rest f pos w r n span,
      run_stops addr end step blocks key rest f pos w r n span more,
    )
    | inr ends ↦ rw ends (run_ends addr end step blocks key rest f pos w r n span ends)
  ]

  count_steps :
      (key stop n : ℕ) → 0 < step → stop ≡ key + n * step → steps key (stop + step) step ≡ suc n
  count_steps key stop n pos e = ap (λ t. steps key t step) whole ∙ steps_count key (suc n) step pos
    where
      whole : stop + step ≡ key + suc n * step
      whole = omega arith

  abbrev outcome : ℕ → ℕ → ℕ × Bool → FreeRound
  outcome key n r =
      if r.1
      then free_waits (remove_each n step key blocks) (r.0 + step)
      else freed (remove_each n step key blocks)

  run_outcome :
      (f : ℕ × BlockState × Blocks) (n : ℕ)
      → (r : RunTo addr end step f.0 f.2) → 0 < step
      → r.result.0 ≡ f.0 + n * step
      → outcome f.0
          (steps f.0 ((unlocked_run addr end f.0 f.2).0 + step) step)
          (unlocked_run addr end f.0 f.2)
        ≡ outcome f.0 (suc n) r.result
  run_outcome f n r pos span =
      ap (λ t. outcome f.0 (steps f.0 (t.0 + step) step) t) r.run
      ∙ ap (λ t. outcome f.0 t r.result) (count_steps f.0 r.result.0 n pos span)

  round_run :
      (f : ℕ × BlockState × Blocks)
      → 0 < step
      → Ordered step 0 blocks
      → first_in addr end blocks ≡ some f
      → f.1 ≡ unlocked
      → FreeResult decommit step addr end blocks round
  round_run f pos w found free =
      let fi : FirstIn addr end step blocks f.0 unlocked f.2 =
        subst (λ t. FirstIn addr end step blocks f.0 t f.2) free
          (first_in-FirstIn addr end step 0 blocks f w found) in
      let r =
        unlocked_run-RunTo addr end step f.0 (f.0 + 1) f.2 fi.order (omega arith) fi.aligned
          (ground (arith, fi.within)) in
      let (n, span) = steps_between f.0 r.result.0 step fi.aligned r.aligned r.from in
      elim (Bool-cases (decommit f.0 ((unlocked_run addr end f.0 f.2).0 + step - f.0))) [
        | inl taken ↦
            subst (λ t. FreeResult decommit step addr end blocks t)
              (sym (round_runs f found free taken ∙ run_outcome f n r pos span))
              (FreeResult-run f.0 n f.2 fi pos w r span)
        | inr refuses ↦
            subst (λ t. FreeResult decommit step addr end blocks t)
              (sym (round_fails f found free refuses))
              (
                f.0,
                (unlocked_run addr end f.0 f.2).0 + step - f.0,
                ground (arith, fi.within),
                ground (arith, fi.within),
                fi.state,
                refuses,
              )
      ]

  locked_first :
      (f : ℕ × BlockState × Blocks)
      → first_in addr end blocks ≡ some f
      → f.1 ≡ locked
      → Ordered step 0 blocks
      → Awaits addr end blocks
  locked_first f found taken w =
      let fi = first_in-FirstIn addr end step 0 blocks f w found in
      (f.0, ground (arith, fi.within), ground (arith, fi.within), fi.state ∙ ap (λ s. some s) taken)

  -- The blocks are in order, with a size above 0. A round of `dealloc` keeps every locked block, has
  -- removed all blocks of the range up to where it waits, or up to the end of the range if it does not
  -- wait, and leaves what is in front of the range and from there on as it was. It waits only where a block
  -- of the range from there on is locked. It fails only where the
  -- host refuses to take back a run of memory that starts at an unlocked block of the range.
  pub free_round-FreeResult :
      0 < step → Ordered step 0 blocks → FreeResult decommit step addr end blocks round
  free_round-FreeResult pos w = elim (Option-cases (first_in addr end blocks)) [
    | inl absent ↦
        subst (λ t. FreeResult decommit step addr end blocks t) (sym (free_round-none absent))
          (record {
            keeps = λ x h. h;
            gone = first_in-none addr end blocks absent;
            outside = λ x h. refl;
            order = w;
          })
    | inr there ↦
        let (f, found) = there in
        elim (state_cases f.1) [
          | inl taken ↦
              subst (λ t. FreeResult decommit step addr end blocks t)
                (sym (round_locked f found taken))
                (
                  record {
                    keeps = λ x h. h;
                    gone = λ x h k. absurd (omega arith);
                    outside = λ x h. refl;
                    order = w;
                  },
                  locked_first f found taken w,
                )
          | inr free ↦ round_run f pos w found free
        ]
  ]
