-- ===== src/Legacy/RegMgr/Lookup.antt =====
-- legacy/src/regmgr/mod.rs: the search for the entry of a key.
use obliteration.Prelude.{
  ℕ, zero, suc, ◌+◌, ◌-◌, ◌*◌, ◌^◌, ◌≤◌, ◌<◌, ◌≡◌, ◌≢◌, refl, sym, ◌∙◌, ◌⊎◌, inl, inr, Bool, true,
  false, Option, none, some, List, [], ◌∷◌, ltb, ◌==◌, ◌&&◌, bit_and, Flow, done, ◌>>=◌, add32,
  arith, subst, ltb→lt, ==_iff, ℕ_discrete, ap,
}
use mathlib.Core.List.{Memᴰ}
use mathlib.Core.List.Memᴰ
use native.Mathlib.Nat.{mod-eq_of_lt}
use obliteration.Legacy.RegMgr.{has_later_key, has_key, lookup_in, lookup}
use obliteration.Legacy.RegMgr.Words.{shl32}
use obliteration.Legacy.RegMgr.Entry.{RegEntry}
use obliteration.Legacy.RegMgr.Table.{entries}
use obliteration.Legacy.RegMgr.Keys.{
  step, key_at, Owns, top, key_at-le, span, clear_by, clear, all_clear, separate, and-true,
  all_clear-apart,
}

-- The search of one entry ends, and finds the key if the entry has it.
Scanned : Flow Bool → Type 0 → Type 0
Scanned m P = ((m ≡ done true) × P) ⊎ ((m ≡ done false) × ¬ P)

-- The key number `v`, as the source computes it.
next_key :
    (e : RegEntry) (v : ℕ)
    → key_at e v < 2 ^ 32
    → add32 (shl32 v (bit_and e.unk2 0x1f)) e.key ≡ done (key_at e v)
next_key e v h =
    let whole : shl32 v (bit_and e.unk2 0x1f) ≡ v * step e = mod-eq_of_lt (omega (arith, h)) in
    rw whole ground (arith, h)

OwnsFrom : RegEntry → ℕ → ℕ → ℕ → Type 0
OwnsFrom e v n key = (w : ℕ) × (v ≤ w) × (w < v + n) × (key ≡ key_at e w)

OwnsFrom-not :
    (e : RegEntry) (v n key : ℕ)
    → key_at e v ≢ key
    → ¬ OwnsFrom e (suc v) n key
    → ¬ OwnsFrom e v (suc n) key
unfolding OwnsFrom
OwnsFrom-not e v n key ne later (w, low, high, eq) = elim (ℕ_discrete w v) [
  | yes here ↦ ne (sym (eq ∙ ap (key_at e) here))
  | no there ↦ later (w, omega arith, omega arith, eq)
]

has_later_key-test :
    (n v : ℕ) (e : RegEntry) (key : ℕ)
    → key_at e v < 2 ^ 32
    → has_later_key (suc n) v e key
      ≡ (elim (key_at e v == key) [ true ↦ done true | false ↦ has_later_key n (suc v) e key ])
unfolding has_later_key
has_later_key-test n v e key h =
    ap
      (λ m. m >>= λ k. elim (k == key) [ true ↦ done true | false ↦ has_later_key n (suc v) e key ])
      (next_key e v h)

has_later_key-Scanned :
    (n v : ℕ) (e : RegEntry) (key : ℕ)
    → v + n ≤ suc (e.unk1 - 1)
    → top e < 2 ^ 32
    → Scanned (has_later_key n v e key) (OwnsFrom e v n key)
unfolding Scanned OwnsFrom top
has_later_key-Scanned zero v e key h fits =
    inr (unfold has_later_key in refl, λ own. omega (arith, own.1, own.2))
has_later_key-Scanned (suc n) v e key h fits =
    rw (has_later_key-test n v e key (omega (arith, key_at-le e v (e.unk1 - 1) (omega arith))))
      (elim (ℕ_discrete (key_at e v) key) [
        | yes hit ↦
            inl (rw ((==_iff (key_at e v) key).1 hit) refl, (v, omega arith, omega arith, sym hit))
        | no miss ↦
            let other : (key_at e v == key) ≡ false = ground (arith, miss) in
            elim (has_later_key-Scanned n (suc v) e key (omega arith) fits) [
              | inl (found, (w, low, high, eq)) ↦
                  inl (rw other found, (w, omega arith, omega arith, eq))
              | inr (lost, none_of) ↦ inr (rw other lost, OwnsFrom-not e v n key miss none_of)
            ]
      ])

-- A key of the entry is the first, or one of those after it.
Owns-later : (e : RegEntry) (key : ℕ) → e.key ≢ key → Owns e key → OwnsFrom e 1 (e.unk1 - 1) key
unfolding OwnsFrom
Owns-later e key ne (zero, own, eq) = absurd (ne (omega (arith, eq)))
Owns-later e key ne (suc v, inl z, eq) = absurd (omega (arith, z))
Owns-later e key ne (suc v, inr small, eq) = (suc v, omega arith, omega (arith, small), eq)

OwnsFrom-Owns : (e : RegEntry) (key : ℕ) → OwnsFrom e 1 (e.unk1 - 1) key → Owns e key
unfolding OwnsFrom
OwnsFrom-Owns e key (w, low, high, eq) = (w, inr (omega arith), eq)

has_key-Scanned : (e : RegEntry) (key : ℕ) → top e < 2 ^ 32 → Scanned (has_key e key) (Owns e key)
unfolding Scanned has_key
has_key-Scanned e key fits = elim (ℕ_discrete e.key key) [
  | yes hit ↦ inl (rw (has_key, (==_iff e.key key).1 hit) refl, (0, inl refl, omega (arith, hit)))
  | no miss ↦
      let other : (e.key == key) ≡ false = ground (arith, miss) in
      elim (has_later_key-Scanned (e.unk1 - 1) 1 e key (omega arith) fits) [
        | inl (found, own) ↦ inl (rw (has_key, other) found, OwnsFrom-Owns e key own)
        | inr (lost, none_of) ↦
            inr (rw (has_key, other) lost, λ own. none_of (Owns-later e key miss own))
      ]
]

-- What the search of a list comes to: the one entry with the key, or none when no entry has it.
abbrev pub Answer : List RegEntry → ℕ → Flow (Option RegEntry) → Type 0
Answer es key m =
    ((e : RegEntry) × Memᴰ e es
      × Owns e key
      × (m ≡ done (some e))
      × ((a : RegEntry) → Memᴰ a es → Owns a key → a ≡ e))
    ⊎ ((m ≡ done none) × ((a : RegEntry) → Memᴰ a es → ¬ Owns a key))

lookup_in-Answer :
    (es : List RegEntry) (key : ℕ) → separate es ≡ true → Answer es key (lookup_in es key)
unfolding separate Scanned lookup_in
lookup_in-Answer [] key h = inr (refl, λ a m own. Memᴰ.not-nil m)
lookup_in-Answer (e ∷ es) key h =
    let (both, rest) = and-true (ltb (top e) (2 ^ 32) && all_clear e es) (separate es) h in
    let (fits, apart) = and-true (ltb (top e) (2 ^ 32)) (all_clear e es) both in
    elim (has_key-Scanned e key (ltb→lt (top e) (2 ^ 32) fits)) [
      | inl (found, own) ↦ inl (
        e,
        Memᴰ.head refl,
        own,
        rw (lookup_in, found) refl,
        λ a m own_a. elim (Memᴰ.cases_cons m) [
          | inl same ↦ same
          | inr later ↦ absurd (all_clear-apart e a es key apart later own own_a)
        ],
      )
      | inr (lost, not_own) ↦ elim (lookup_in-Answer es key rest) [
        | inl (x, m, own, found, only) ↦ inl (
          x,
          Memᴰ.tail m,
          own,
          rw (lookup_in, lost) found,
          λ a m_a own_a. elim (Memᴰ.cases_cons m_a) [
            | inl same ↦ absurd (not_own (subst (λ t. Owns t key) same own_a))
            | inr later ↦ only a later own_a
          ],
        )
        | inr (lost_too, none_own) ↦ inr (
          rw (lookup_in, lost) lost_too,
          λ a m_a own_a. elim (Memᴰ.cases_cons m_a) [
            | inl same ↦ not_own (subst (λ t. Owns t key) same own_a)
            | inr later ↦ none_own a later own_a
          ],
        )
      ]
    ]

separate-entries : separate entries ≡ true
unfolding separate all_clear clear clear_by span top
separate-entries = refl

-- The search of the table always ends without a panic. It gives the entry of the table that has the key, which
-- is the only one that has it, or nothing when no entry of the table has the key.
pub lookup-Answer : (key : ℕ) → Answer entries key (lookup key)
unfolding lookup
lookup-Answer key = lookup_in-Answer entries key separate-entries
