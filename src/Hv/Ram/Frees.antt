-- ===== src/Hv/Ram/Frees.antt =====
-- What a round of `dealloc` finds: the first block of the range, and the unlocked ones from there on.
use obliteration.Prelude.{
  ℕ, ◌+◌, ◌%◌, ◌≡◌, ◌<◌, ◌≤◌, refl, sym, ap, ◌∙◌, Bool, true, false, none, some, [], ◌∷◌, arith,
  subst, Bool-cases, inl, inr, ℕ_discrete, Option-cases, ◌⊎◌,
}
use obliteration.Hv.Ram.{BlockState, locked, unlocked, Blocks, in_range, unlocked_run, first_in}
use obliteration.Hv.Ram.Blocks.{get_block, Ordered, get_block-cons, get_block-nil, get_block-from}
use obliteration.Hv.Ram.Passes.{state_cases}

pub get_block-aligned :
    (step lo x : ℕ) (s : BlockState) (blocks : Blocks)
    → Ordered step lo blocks
    → get_block blocks x ≡ some s
    → x % step ≡ 0
get_block-aligned step lo x s [] w h = ground (arith, get_block-nil x)
get_block-aligned step lo x s (b ∷ blocks) w h = elim (ℕ_discrete x b.0) [
  | yes here ↦ ap (λ t. t % step) here ∙ w.1
  | no later ↦
      get_block-aligned step (b.0 + 1) x s blocks w.2 (ground (arith, get_block-cons b blocks x))
]

pub get_block-below :
    (step lo x : ℕ) (blocks : Blocks) → Ordered step lo blocks → x < lo → get_block blocks x ≡ none
get_block-below step lo x blocks w h = elim (Option-cases (get_block blocks x)) [
  | inl absent ↦ absent
  | inr there ↦ absurd (omega (arith, get_block-from step lo x there.0 blocks w there.1))
]

-- What is found first is in the range, in front of it there is nothing, and behind it are the others.
pub record FirstIn (addr end step : ℕ) (blocks : Blocks) (key : ℕ) (s : BlockState) (rest : Blocks)
    : Type 0 where
  pub within : in_range addr end key ≡ true
  pub state : get_block blocks key ≡ some s
  pub aligned : key % step ≡ 0
  pub before : (x : ℕ) → addr ≤ x → x < key → get_block blocks x ≡ none
  pub after : (x : ℕ) → key < x → get_block blocks x ≡ get_block rest x
  pub order : Ordered step (key + 1) rest

first_cases :
    (addr end : ℕ) (b : ℕ × BlockState) (rest : Blocks)
    → ((in_range addr end b.0 ≡ true) × (first_in addr end (b ∷ rest) ≡ some (b.0, b.1, rest)))
      ⊎ ((in_range addr end b.0 ≡ false) × (first_in addr end (b ∷ rest) ≡ first_in addr end rest))
unfolding first_in
first_cases addr end b rest = elim (Bool-cases (in_range addr end b.0)) [
  | inl there ↦ inl (there, ground arith)
  | inr out ↦ inr (out, ground arith)
]

pub first_in-none :
    (addr end : ℕ) (blocks : Blocks)
    → first_in addr end blocks ≡ none
    → (x : ℕ) → addr ≤ x
    → x < end
    → get_block blocks x ≡ none
first_in-none addr end [] h x k l = get_block-nil x
first_in-none addr end (b ∷ blocks) h x k l = elim (first_cases addr end b blocks) [
  | inl there ↦ ground (arith, there.1)
  | inr out ↦
      ground (
        arith,
        out.0,
        get_block-cons b blocks x,
        first_in-none addr end blocks (sym out.1 ∙ h) x k l,
      )
]

some_eq : {A : Type 0} (a b : A) → some a ≡ some b → a ≡ b
some_eq a b h = cc

pub first_in-FirstIn :
    (addr end step lo : ℕ) (blocks : Blocks) (f : ℕ × BlockState × Blocks)
    → Ordered step lo blocks
    → first_in addr end blocks ≡ some f
    → FirstIn addr end step blocks f.0 f.1 f.2
first_in-FirstIn addr end step lo [] f w h = unfold first_in in ground (arith, h)
first_in-FirstIn addr end step lo (b ∷ blocks) f w h = elim (first_cases addr end b blocks) [
  | inl there ↦
      let same : (b.0, b.1, blocks) ≡ f = some_eq _ _ (sym there.1 ∙ h) in
      subst (λ t. FirstIn addr end step (b ∷ blocks) t.0 t.1 t.2) same
        (record {
          within = there.0;
          state = ground (arith, get_block-cons b blocks b.0);
          aligned = w.1;
          before = λ x k l. get_block-below step b.0 x (b ∷ blocks) (omega arith, w.1, w.2) l;
          after = λ x k. ground (arith, get_block-cons b blocks x);
          order = w.2;
        })
  | inr out ↦
      let r = first_in-FirstIn addr end step (b.0 + 1) blocks f w.2 (sym out.1 ∙ h) in
      record {
        within = r.within;
        state = ground (arith, r.state, r.within, out.0, get_block-cons b blocks f.0);
        aligned = r.aligned;
        before =
            λ x k l. ground (arith, r.before x k l, r.within, out.0, get_block-cons b blocks x);
        after = λ x k. ground (
          arith,
          r.after x k,
          r.within,
          out.0,
          get_block-cons b blocks x,
          get_block-from step (b.0 + 1) f.0 f.1 blocks w.2 r.state,
        );
        order = r.order;
      }
]

-- The run is of unlocked blocks; if nothing ends it, it goes up to the last block of the range.
pub record RunTo (addr end step last : ℕ) (rest : Blocks) : Type 0 where
  pub result : ℕ × Bool
  pub run : unlocked_run addr end last rest ≡ result
  pub from : last ≤ result.0
  pub aligned : result.0 % step ≡ 0
  pub within : result.0 < end
  pub spares : (x : ℕ) → in_range addr end x ≡ true → get_block rest x ≡ some locked → result.0 < x
  pub complete :
      result.1 ≡ false
      → (x : ℕ) → in_range addr end x ≡ true
      → result.0 < x
      → get_block rest x ≡ none
  pub stops :
      result.1 ≡ true
      → (x : ℕ) × (in_range addr end x ≡ true) × (result.0 < x) × (get_block rest x ≡ some locked)

run_nil : (addr end last : ℕ) → unlocked_run addr end last [] ≡ (last, false)
unfolding unlocked_run
run_nil addr end last = refl

run_out :
    (addr end last : ℕ) (b : ℕ × BlockState) (rest : Blocks)
    → in_range addr end b.0 ≡ false
    → unlocked_run addr end last (b ∷ rest) ≡ unlocked_run addr end last rest
unfolding unlocked_run
run_out addr end last b rest h = ground arith

run_locked :
    (addr end last : ℕ) (b : ℕ × BlockState) (rest : Blocks)
    → in_range addr end b.0 ≡ true
    → b.1 ≡ locked
    → unlocked_run addr end last (b ∷ rest) ≡ (last, true)
unfolding unlocked_run
run_locked addr end last b rest h k = ground arith

run_unlocked :
    (addr end last : ℕ) (b : ℕ × BlockState) (rest : Blocks)
    → in_range addr end b.0 ≡ true
    → b.1 ≡ unlocked
    → unlocked_run addr end last (b ∷ rest) ≡ unlocked_run addr end b.0 rest
unfolding unlocked_run
run_unlocked addr end last b rest h k = ground arith

pub unlocked_run-RunTo :
    (addr end step last lo : ℕ) (rest : Blocks)
    → Ordered step lo rest
    → last < lo
    → last % step ≡ 0
    → last < end
    → RunTo addr end step last rest
unlocked_run-RunTo addr end step last lo [] w h al l = record {
  result = (last, false);
  run = run_nil addr end last;
  from = omega arith;
  aligned = al;
  within = l;
  spares = λ x k m. ground (arith, get_block-nil x);
  complete = λ e x k m. get_block-nil x;
  stops = λ e. cc e;
}
unlocked_run-RunTo addr end step last lo (b ∷ rest) w h al l =
    elim (Bool-cases (in_range addr end b.0)) [
      | inr out ↦
          let r =
            unlocked_run-RunTo addr end step last (b.0 + 1) rest w.2 (omega (arith, w.0)) al l in
          record {
            result = r.result;
            run = run_out addr end last b rest out ∙ r.run;
            from = r.from;
            aligned = r.aligned;
            within = r.within;
            spares = λ x k m. r.spares x k (ground (arith, get_block-cons b rest x));
            complete = λ e x k m. ground (arith, get_block-cons b rest x, r.complete e x k m);
            stops = λ e.
                let (x, k, l, there) = r.stops e in
                (x, k, l, ground (arith, get_block-cons b rest x, k, out, there));
          }
      | inl there ↦ elim (state_cases b.1) [
        | inl taken ↦ record {
          result = (last, true);
          run = run_locked addr end last b rest there taken;
          from = omega arith;
          aligned = al;
          within = l;
          spares = λ x k m. omega (arith, get_block-from step lo x locked (b ∷ rest) w m);
          complete = λ e x k m. cc;
          stops = λ e.
              (b.0, there, omega (arith, w.0), ground (arith, get_block-cons b rest b.0, taken));
        }
        | inr free ↦
            let r =
              unlocked_run-RunTo addr end step b.0 (b.0 + 1) rest w.2 (omega arith) w.1
                (ground arith) in
            record {
              result = r.result;
              run = run_unlocked addr end last b rest there free ∙ r.run;
              from = omega (arith, r.from, w.0);
              aligned = r.aligned;
              within = r.within;
              spares = λ x k m. r.spares x k (ground (arith, get_block-cons b rest x));
              complete =
                  λ e x k m. ground (arith, get_block-cons b rest x, r.complete e x k m, r.from);
              stops = λ e.
                  let (x, k, l, held) = r.stops e in
                  (x, k, l, ground (arith, get_block-cons b rest x, r.from, l, held));
            }
      ]
    ]
