-- ===== src/Hv/Ram/Blocks.antt =====
-- Looking blocks up, and the order of the map.
use obliteration.Prelude.{
  ℕ, ◌+◌, ◌%◌, ◌≡◌, ◌≢◌, ◌<◌, ◌≤◌, refl, sym, false, Option, none, some, [], ◌∷◌, ◌==◌,
  if◌then◌else◌, arith, done, inl, inr, ◌⊎◌, Flow-cases, dec_lt, ℕ_discrete, subst,
}
use obliteration.Hv.Ram.{BlockState, Blocks, in_range, any_in, insert_new, remove_key, unlock_range}

unfoldable pub get_block : Blocks → ℕ → Option BlockState
get_block [] x = none
get_block (b ∷ blocks) x = if x == b.0 then some b.1 else get_block blocks x

-- The keys are multiples of `step` that ascend from `lo` on.
abbrev pub Ordered : ℕ → ℕ → Blocks → Type 0
Ordered step lo [] = Unit {0}
Ordered step lo (b ∷ blocks) = (lo ≤ b.0) × (b.0 % step ≡ 0) × Ordered step (b.0 + 1) blocks

pub get_block-from :
    (step lo x : ℕ) (s : BlockState) (blocks : Blocks)
    → Ordered step lo blocks
    → get_block blocks x ≡ some s
    → lo ≤ x
unfolding get_block
get_block-from step lo x s [] w h = cc
get_block-from step lo x s (b ∷ blocks) w h =
    ground (arith, w.0, get_block-from step (b.0 + 1) x s blocks w.2)

pub any_in-none :
    (lo hi x : ℕ) (blocks : Blocks)
    → any_in lo hi blocks ≡ false
    → lo ≤ x
    → x < hi
    → get_block blocks x ≡ none
unfolding get_block any_in
any_in-none lo hi x [] h k l = refl
any_in-none lo hi x (b ∷ blocks) h k l = ground (arith, any_in-none lo hi x blocks)

-- A block is inserted in front of the first, or behind it.
abbrev Inserted : ℕ → BlockState → ℕ × BlockState → Blocks → Blocks → Type 0
Inserted key s b blocks after =
    ((key < b.0) × (after ≡ (key, s) ∷ b ∷ blocks))
    ⊎ ((rest : Blocks) × (b.0 < key) × (insert_new key s blocks ≡ done rest) × (after ≡ b ∷ rest))

insert_cases :
    (key : ℕ) (s : BlockState) (b : ℕ × BlockState) (blocks after : Blocks)
    → insert_new key s (b ∷ blocks) ≡ done after
    → Inserted key s b blocks after
unfolding insert_new
insert_cases key s b blocks after h = elim (dec_lt key b.0) [
  | yes front ↦ inl (front, ground arith)
  | no behind ↦ elim (Flow-cases (insert_new key s blocks)) [
    | inl fails ↦ ground (arith, fails.1)
    | inr ends ↦ inr (ends.0, ground (arith, ends.1), ends.1, ground (arith, ends.1))
  ]
]

insert_nil :
    (key : ℕ) (s : BlockState) (after : Blocks)
    → insert_new key s [] ≡ done after
    → after ≡ (key, s) ∷ []
unfolding insert_new
insert_nil key s after h = ground arith

pub get_block-cons :
    (b : ℕ × BlockState) (blocks : Blocks) (x : ℕ)
    → get_block (b ∷ blocks) x ≡ (if x == b.0 then some b.1 else get_block blocks x)
unfolding get_block
get_block-cons b blocks x = refl

pub get_block-nil : (x : ℕ) → get_block [] x ≡ none
unfolding get_block
get_block-nil x = refl

pub get_block-insert :
    (key x : ℕ) (s : BlockState) (blocks after : Blocks)
    → insert_new key s blocks ≡ done after
    → get_block after x ≡ (if x == key then some s else get_block blocks x)
get_block-insert key x s [] after h =
    ground (arith, insert_nil key s after h, get_block-cons (key, s) [] x, get_block-nil x)
get_block-insert key x s (b ∷ blocks) after h = elim (insert_cases key s b blocks after h) [
  | inl front ↦ ground (arith, front.0, front.1, get_block-cons (key, s) (b ∷ blocks) x)
  | inr later ↦ ground (
    arith,
    later.1,
    later.3,
    get_block-cons b later.0 x,
    get_block-cons b blocks x,
    get_block-insert key x s blocks later.0 later.2,
  )
]

pub insert_new-Ordered :
    (step lo key : ℕ) (s : BlockState) (blocks after : Blocks)
    → lo ≤ key
    → key % step ≡ 0
    → Ordered step lo blocks
    → insert_new key s blocks ≡ done after
    → Ordered step lo after
insert_new-Ordered step lo key s [] after at al w h =
    subst (λ l. Ordered step lo l) (sym (insert_nil key s after h)) (at, al, tt)
insert_new-Ordered step lo key s (b ∷ blocks) after at al w h =
    elim (insert_cases key s b blocks after h) [
      | inl front ↦
          subst (λ l. Ordered step lo l) (sym front.1) (at, al, (omega (arith, front.0), w.1, w.2))
      | inr later ↦
          subst (λ l. Ordered step lo l) (sym later.3)
            (
              w.0,
              w.1,
              insert_new-Ordered step (b.0 + 1) key s blocks later.0 (omega (arith, later.1)) al w.2
                  later.2,
            )
    ]

-- An insertion succeeds where the key is not there.
pub insert_new-done :
    (key : ℕ) (s : BlockState) (blocks : Blocks)
    → get_block blocks key ≡ none
    → (after : Blocks) × (insert_new key s blocks ≡ done after)
unfolding insert_new
insert_new-done key s [] h = ((key, s) ∷ [], refl)
insert_new-done key s (b ∷ blocks) h = elim (dec_lt key b.0) [
  | yes front ↦ ((key, s) ∷ b ∷ blocks, ground arith)
  | no behind ↦
      let other : get_block blocks key ≡ none = ground (arith, get_block-cons b blocks key) in
      let later = insert_new-done key s blocks other in
      (b ∷ later.0, ground (arith, later.1, get_block-cons b blocks key))
]

pub get_block-remove :
    (key x : ℕ) (blocks : Blocks)
    → x ≢ key
    → get_block (remove_key key blocks) x ≡ get_block blocks x
unfolding get_block remove_key
get_block-remove key x [] h = refl
get_block-remove key x (b ∷ blocks) h = ground (arith, get_block-remove key x blocks h)

pub get_block-unlock :
    (lo hi x : ℕ) (blocks : Blocks)
    → in_range lo hi x ≡ false
    → get_block (unlock_range lo hi blocks) x ≡ get_block blocks x
unfolding get_block unlock_range
get_block-unlock lo hi x [] h = refl
get_block-unlock lo hi x (b ∷ blocks) h = ground (arith, get_block-unlock lo hi x blocks)

pub Ordered-lower :
    (step lo lo' : ℕ) (blocks : Blocks)
    → lo ≤ lo'
    → Ordered step lo' blocks
    → Ordered step lo blocks
Ordered-lower step lo lo' [] h w = tt
Ordered-lower step lo lo' (b ∷ blocks) h w = (omega (arith, w.0), w.1, w.2)

pub unlock_range-Ordered :
    (step lo from to : ℕ) (blocks : Blocks)
    → Ordered step lo blocks
    → Ordered step lo (unlock_range from to blocks)
unfolding unlock_range
unlock_range-Ordered step lo from to [] w = tt
unlock_range-Ordered step lo from to (b ∷ blocks) w =
    (w.0, w.1, unlock_range-Ordered step (b.0 + 1) from to blocks w.2)

pub remove_here :
    (key : ℕ) (b : ℕ × BlockState) (blocks : Blocks)
    → key ≡ b.0
    → remove_key key (b ∷ blocks) ≡ blocks
unfolding remove_key
remove_here key b blocks h = ground arith

pub remove_later :
    (key : ℕ) (b : ℕ × BlockState) (blocks : Blocks)
    → key ≢ b.0
    → remove_key key (b ∷ blocks) ≡ b ∷ remove_key key blocks
unfolding remove_key
remove_later key b blocks h = ground arith

pub remove_key-Ordered :
    (step lo key : ℕ) (blocks : Blocks)
    → Ordered step lo blocks
    → Ordered step lo (remove_key key blocks)
remove_key-Ordered step lo key [] w = unfold remove_key in tt
remove_key-Ordered step lo key (b ∷ blocks) w = elim (ℕ_discrete key b.0) [
  | yes here ↦
      subst (λ l. Ordered step lo l) (sym (remove_here key b blocks here))
        (Ordered-lower step lo (b.0 + 1) blocks (omega (arith, w.0)) w.2)
  | no later ↦
      subst (λ l. Ordered step lo l) (sym (remove_later key b blocks later))
        (w.0, w.1, remove_key-Ordered step (b.0 + 1) key blocks w.2)
]
