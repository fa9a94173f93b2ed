-- ===== src/Legacy/RegMgr/Setting.antt =====
-- legacy/src/regmgr/mod.rs: what `set_int` and `get_int` come to for a number that the table holds.
use obliteration.Prelude.{
  ℕ, zero, suc, ◌^◌, ◌<◌, ◌≡◌, refl, sym, ap, ◌∙◌, inl, inr, Bool, true, false, not, ◌&&◌, ◌||◌,
  none, some, List, [], ◌∷◌, ltb, ◌==◌, if◌then◌else◌, get_elem?, replicate, done, panic, ok,
  unfinished, arith, Bool-cases, subst,
}
use mathlib.Core.List.{Memᴰ}
use obliteration.Legacy.RegMgr.{
  lookup, check_param, get_value, get_int, set_value, set_int, is_special, is_ignored, is_unk_key,
  unk_entries1, to_le_bytes, from_le_bytes, differs,
}
use obliteration.Legacy.RegMgr.Entry.{RegEntry}
use obliteration.Legacy.RegMgr.Table.{entries}
use obliteration.Legacy.RegMgr.Keys.{Owns, and-true}
use obliteration.Legacy.RegMgr.Lookup.{lookup-Answer}

get_elem?-Mem : (es : List RegEntry) (n : ℕ) (e : RegEntry) → get_elem? es n ≡ some e → Memᴰ e es
get_elem?-Mem [] n e h = cc h
get_elem?-Mem (x ∷ es) zero e h = Memᴰ.head (cc h)
get_elem?-Mem (x ∷ es) (suc n) e h = Memᴰ.tail (get_elem?-Mem es n e h)

-- The search gives the entry that has the key.
pub lookup-Owns :
    (n : ℕ) (e : RegEntry) (key : ℕ)
    → get_elem? entries n ≡ some e
    → Owns e key
    → lookup key ≡ done (some e)
lookup-Owns n e key h own =
    let m = get_elem?-Mem entries n e h in
    elim (lookup-Answer key) [
      | inl (x, m_x, own_x, found, only) ↦ found ∙ ap (λ t. done (some t)) (sym (only e m own))
      | inr (lost, none_own) ↦ absurd (none_own e m own)
    ]

-- The entry holds a number of four bytes that is kept in the table itself.
abbrev pub Plain : RegEntry → ℕ → Type 0
Plain e key = (e.unk4 ≡ 0) × (e.len ≡ 4) × (e.unk5 ≡ 2) × (e.unk6 ≡ 1) × (is_special key ≡ false)

module _ (e : RegEntry) (key : ℕ) (found : lookup key ≡ done (some e)) (plain : Plain e key) where
  check_param-Plain : check_param key 0 4 ≡ done none
  unfolding check_param
  check_param-Plain = rw (found, plain.0, plain.1) refl

  get_value-Plain : get_value key (replicate 4 0) ≡ done (ok (to_le_bytes e.value))
  unfolding get_value
  get_value-Plain = rw (plain.4, found, plain.0, plain.1, plain.2, plain.3) refl

  get_int-Plain : get_int key ≡ done (from_le_bytes (to_le_bytes e.value))
  unfolding get_int
  get_int-Plain = rw (check_param-Plain, get_value-Plain) refl

is_ignored_lem : (key : ℕ) → is_ignored unk_entries1 key ≡ done (0x141E0500 == key)
unfolding is_ignored is_unk_key
is_ignored_lem key = ground arith

differs-bytes :
    (a b : ℕ) → a < 2 ^ 32 → b < 2 ^ 32 → differs (to_le_bytes a) (to_le_bytes b) ≡ not (a == b)
unfolding differs
differs-bytes a b ha hb = ground arith

swapped {ℓ} : {A : Type ℓ} (b : Bool) (x y : A) → (if not b then x else y) ≡ (if b then y else x)
swapped true x y = refl
swapped false x y = refl

module _ (e : RegEntry) (key : ℕ) (found : lookup key ≡ done (some e)) (plain : Plain e key) where
  set_value-Plain :
      (value : ℕ)
      → value < 2 ^ 32
      → e.value < 2 ^ 32
      → set_value key (to_le_bytes value)
        ≡ (if 0x141E0500 == key || e.value == value then done (ok 0) else panic unfinished)
  unfolding set_value
  set_value-Plain value h g = elim (Bool-cases (0x141E0500 == key)) [
    | inl special ↦ rw (is_ignored_lem key, special) refl
    | inr other ↦
        rw
          (
            is_ignored_lem key,
            other,
            found,
            plain.1,
            get_value-Plain e key found plain,
            plain.0,
            plain.1,
            differs-bytes e.value value g h,
          )
          (swapped (e.value == value) (panic unfinished) (done (ok 0)))
  ]

  pub set_int-Plain :
      (value : ℕ)
      → value < 2 ^ 32
      → e.value < 2 ^ 32
      → set_int key value
        ≡ (if 0x141E0500 == key || e.value == value then done (ok 0) else panic unfinished)
  unfolding set_int
  set_int-Plain value h g = elim (Bool-cases (0x141E0500 == key || e.value == value)) [
    | inl same ↦ rw (check_param-Plain e key found plain, set_value-Plain value h g, same) refl
    | inr other ↦ rw (check_param-Plain e key found plain, set_value-Plain value h g, other) refl
  ]

-- The numbers of the table have 32 bits.
unfoldable words : List RegEntry → Bool
words [] = true
words (e ∷ es) = ltb e.value (2 ^ 32) && ltb e.unk3 (2 ^ 32) && words es

words-get_elem? :
    (es : List RegEntry) (n : ℕ) (e : RegEntry)
    → words es ≡ true
    → get_elem? es n ≡ some e
    → (e.value < 2 ^ 32) × (e.unk3 < 2 ^ 32)
unfolding words
words-get_elem? [] n e h eq = cc eq
words-get_elem? (x ∷ es) zero e h eq =
    let (both, rest) = and-true (ltb x.value (2 ^ 32) && ltb x.unk3 (2 ^ 32)) (words es) h in
    let same : x ≡ e = cc eq in
    subst (λ (t : RegEntry). (t.value < 2 ^ 32) × (t.unk3 < 2 ^ 32)) same (ground (arith, both))
words-get_elem? (x ∷ es) (suc n) e h eq =
    let (both, rest) = and-true (ltb x.value (2 ^ 32) && ltb x.unk3 (2 ^ 32)) (words es) h in
    words-get_elem? es n e rest eq

words-entries : words entries ≡ true
unfolding words
words-entries = refl

pub entries-bounds :
    (n : ℕ) (e : RegEntry) → get_elem? entries n ≡ some e → (e.value < 2 ^ 32) × (e.unk3 < 2 ^ 32)
entries-bounds n e = words-get_elem? entries n e words-entries
