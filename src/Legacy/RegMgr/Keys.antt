-- ===== src/Legacy/RegMgr/Keys.antt =====
-- legacy/src/regmgr/mod.rs: the keys of an entry of the registry, and when two entries have none in common.
use obliteration.Prelude.{
  ℕ, zero, suc, ◌+◌, ◌-◌, ◌*◌, ◌/◌, ◌%◌, ◌^◌, ◌≤◌, ◌<◌, ◌≡◌, refl, sym, ap, ◌∙◌, ◌⊎◌, inl, inr,
  Bool, true, false, not, ◌&&◌, ◌||◌, min, List, [], ◌∷◌, ltb, ◌==◌, if◌then◌else◌, bit_and, arith,
  subst,
}
use mathlib.Core.List.{Memᴰ}
use mathlib.Core.List.Memᴰ
use native.Mathlib.Nat.{
  mul-le-mul_right, add-mul-mod_self_right, div-mul_cancel, dvd_of_mod-eq-zero, mul_assoc,
}
use obliteration.Legacy.RegMgr.Entry.{RegEntry}

-- The distance between the keys of an entry, and its key number `v`.
abbrev pub step : RegEntry → ℕ
step e = 2 ^ bit_and e.unk2 0x1f

abbrev pub key_at : RegEntry → ℕ → ℕ
key_at e v = e.key + v * step e

-- The key is one of those of the entry.
abbrev pub Owns : RegEntry → ℕ → Type 0
Owns e key = (v : ℕ) × ((v ≡ 0) ⊎ (v < e.unk1)) × (key ≡ key_at e v)

-- The last key.
unfoldable pub top : RegEntry → ℕ
top e = key_at e (e.unk1 - 1)

-- What divides the distances between the keys.
unfoldable pub span : RegEntry → ℕ
span e = if ltb 1 e.unk1 then step e else 2 ^ 32

unfoldable pub clear_by : ℕ → RegEntry → RegEntry → Bool
clear_by m a b = span a % m == 0 && span b % m == 0 && not (a.key % m == b.key % m)

unfoldable pub clear : RegEntry → RegEntry → Bool
clear a b = ltb (top a) b.key || ltb (top b) a.key || clear_by (min (span a) (span b)) a b

unfoldable pub all_clear : RegEntry → List RegEntry → Bool
all_clear e [] = true
all_clear e (a ∷ es) = clear e a && all_clear e es

-- No two entries have a key in common, and all keys are numbers of 32 bits.
unfoldable pub separate : List RegEntry → Bool
separate [] = true
separate (e ∷ es) = ltb (top e) (2 ^ 32) && all_clear e es && separate es

pub key_at-le : (e : RegEntry) (v w : ℕ) → v ≤ w → key_at e v ≤ key_at e w
key_at-le e v w h = omega (arith, mul-le-mul_right (step e) h)

Owns-bounds : (e : RegEntry) (key : ℕ) → Owns e key → (e.key ≤ key) × (key ≤ top e)
unfolding top
Owns-bounds e key (v, h, eq) =
    (omega (arith, eq), omega (arith, eq, key_at-le e v (e.unk1 - 1) (within h)))
  where
    within : (v ≡ 0) ⊎ (v < e.unk1) → v ≤ e.unk1 - 1
    within (inl z) = omega (arith, z)
    within (inr h) = omega (arith, h)

residue-multiple : (k v s m : ℕ) → s % m ≡ 0 → (k + v * s) % m ≡ k % m
residue-multiple k v s m h =
    ap (λ t. (k + v * t) % m) (sym (div-mul_cancel m (dvd_of_mod-eq-zero m h)))
    ∙ ap (λ t. (k + t) % m) (sym (mul_assoc v (s / m) m))
    ∙ add-mul-mod_self_right k (v * (s / m)) m

-- The keys of an entry agree modulo what divides its span.
Owns-residue :
    (m : ℕ) (e : RegEntry) (key : ℕ) → (span e % m == 0) ≡ true → Owns e key → key % m ≡ e.key % m
unfolding span
Owns-residue m e key h (zero, own, eq) = ap (λ k. k % m) (omega (arith, eq))
Owns-residue m e key h (suc v, inl z, eq) = absurd (omega (arith, z))
Owns-residue m e key h (suc v, inr small, eq) =
    ap (λ k. k % m) eq ∙ residue-multiple e.key (suc v) (step e) m (ground arith)

pub and-true : (a b : Bool) → (a && b) ≡ true → (a ≡ true) × (b ≡ true)
and-true true b h = (refl, h)
and-true false b h = cc h

or-true : (a b : Bool) → (a || b) ≡ true → (a ≡ true) ⊎ (b ≡ true)
or-true true b h = inl refl
or-true false b h = inr h

clear_by-apart :
    (m : ℕ) (a b : RegEntry) (key : ℕ) → clear_by m a b ≡ true → Owns a key → Owns b key → ⊥
unfolding clear_by
clear_by-apart m a b key h own_a own_b =
    let (spans, differ) =
      and-true (span a % m == 0 && span b % m == 0) (not (a.key % m == b.key % m)) h in
    let (left, right) = and-true (span a % m == 0) (span b % m == 0) spans in
    let same : a.key % m ≡ b.key % m =
      sym (Owns-residue m a key left own_a) ∙ Owns-residue m b key right own_b in
    ground (arith, same, differ)

-- Two entries that pass the test have no key in common.
pub clear-apart : (a b : RegEntry) (key : ℕ) → clear a b ≡ true → Owns a key → Owns b key → ⊥
unfolding clear
clear-apart a b key h own_a own_b =
    let (low_a, high_a) = Owns-bounds a key own_a in
    let (low_b, high_b) = Owns-bounds b key own_b in
    let m = min (span a) (span b) in
    elim (or-true (ltb (top a) b.key || ltb (top b) a.key) (clear_by m a b) h) [
      | inl far ↦ ground (arith, far)
      | inr apart ↦ clear_by-apart m a b key apart own_a own_b
    ]

pub all_clear-apart :
    (e a : RegEntry) (es : List RegEntry) (key : ℕ)
    → all_clear e es ≡ true
    → Memᴰ a es
    → Owns e key
    → Owns a key
    → ⊥
unfolding all_clear
all_clear-apart e a [] key h m own_e own_a = Memᴰ.not-nil m
all_clear-apart e a (b ∷ es) key h m own_e own_a =
    let (first, rest) = and-true (clear e b) (all_clear e es) h in
    elim (Memᴰ.cases_cons m) [
      | inl same ↦ clear-apart e b key first own_e (subst (λ x. Owns x key) same own_a)
      | inr later ↦ all_clear-apart e a es key rest later own_e own_a
    ]
