-- ===== src/Legacy/RegMgr/Codec.antt =====
-- legacy/src/regmgr/mod.rs: the words in which a program names a key.
use obliteration.Prelude.{
  ℕ, zero, suc, ◌+◌, ◌-◌, ◌*◌, ◌/◌, ◌%◌, ◌^◌, ◌≤◌, ◌<◌, ◌≡◌, refl, ap, ◌∙◌, ◌⊎◌, inl, inr, Bool,
  true, false, not, ◌&&◌, List, [], ◌∷◌, none, some, get_elem?, length, ◌==◌, ltb, if◌then◌else◌,
  bit_or, done, ok, ◌>>=◌, index, arith, ==_iff, Bool-cases,
}
use obliteration.Prelude.Bits.{bit_and-ones}
use obliteration.Prelude.BitOr.{bit_or-above}
use obliteration.Prelude.BitXor.{bit_xor-twice, bit_xor-bound}
use Prim.Native.Nat.{bit_xor}
use native.Mathlib.Nat.{mod-eq_of_lt}
use obliteration.Legacy.RegMgr.Words.{decrypt, verify, unlock, construct, byte, shl32, sbox1, sbox2}

-- The number at a place of a table, 0 beyond its end.
abbrev pub at_place : List ℕ → ℕ → ℕ
at_place xs i = elim (get_elem? xs i) [ none ↦ 0 | some a ↦ a ]

-- The table that a marker chooses.
abbrev pub sbox_of : ℕ → List ℕ
sbox_of x = if x == 0x19 then sbox2 else sbox1

-- The word of six bytes and their checksum.
abbrev pub packed : ℕ → ℕ → ℕ → ℕ → ℕ → ℕ → ℕ
packed a b c d e f =
    a
    + b * 2 ^ 8
    + c * 2 ^ 16
    + d * 2 ^ 24
    + e * 2 ^ 32
    + f * 2 ^ 40
    + (a + b + c + d + e * f) % 2 ^ 16 * 2 ^ 48

-- What a program sends for a key, written from the layout of the word and not from `decode_key`: the place
-- `i` in the tables and the marker `x` are its choice.
unfoldable pub encode : ℕ → ℕ → ℕ → ℕ
encode key i x =
    let s = sbox_of x in
    packed (bit_xor (key % 2 ^ 8) (at_place s (i + 3))) (bit_xor (key / 2 ^ 24) (at_place s i))
      (bit_xor (key / 2 ^ 8 % 2 ^ 8) (at_place s (i + 2)))
      (bit_xor (key / 2 ^ 16 % 2 ^ 8) (at_place s (i + 1)))
      (bit_xor x (at_place sbox1 (16 - 1 - i))) (bit_xor i 0x6b)

pub index-at_place : (xs : List ℕ) (n : ℕ) → n < length xs → index xs n ≡ done (at_place xs n)
index-at_place [] n h = absurd (omega arith)
index-at_place (x ∷ xs) zero h = refl
index-at_place (x ∷ xs) (suc n) h = index-at_place xs n (omega arith)

-- The bytes of a word, from its layout.
byte-packed :
    (v a b c d e f r : ℕ)
    → a < 2 ^ 8
    → b < 2 ^ 8
    → c < 2 ^ 8
    → d < 2 ^ 8
    → e < 2 ^ 8
    → f < 2 ^ 8
    → v ≡ a + b * 2 ^ 8 + c * 2 ^ 16 + d * 2 ^ 24 + e * 2 ^ 32 + f * 2 ^ 40 + r * 2 ^ 48
    → (byte v 0 ≡ a)
      × (byte v 1 ≡ b)
      × (byte v 2 ≡ c)
      × (byte v 3 ≡ d)
      × (byte v 4 ≡ e)
      × (byte v 5 ≡ f)
byte-packed v a b c d e f r ha hb hc hd he hf eq = (
  bit_and-ones 8 (v / 2 ^ 0) ∙ omega arith,
  bit_and-ones 8 (v / 2 ^ 8) ∙ omega arith,
  bit_and-ones 8 (v / 2 ^ 16) ∙ omega arith,
  bit_and-ones 8 (v / 2 ^ 24) ∙ omega arith,
  bit_and-ones 8 (v / 2 ^ 32) ∙ omega arith,
  bit_and-ones 8 (v / 2 ^ 40) ∙ omega arith,
)

decrypt-packed :
    (a b c d e f : ℕ)
    → a < 2 ^ 8
    → b < 2 ^ 8
    → c < 2 ^ 8
    → d < 2 ^ 8
    → e < 2 ^ 8
    → f < 2 ^ 8
    → decrypt (packed a b c d e f) ≡ (unlock a b c d e f >>= λ key. done (ok key))
unfolding decrypt verify
decrypt-packed a b c d e f ha hb hc hd he hf =
    let g = (a + b + c + d + e * f) % 2 ^ 16 in
    let (ea, eb, ec, ed, ee, ef) =
      byte-packed (packed a b c d e f) a b c d e f g ha hb hc hd he hf refl in
    let eh : packed a b c d e f / 2 ^ 48 % 2 ^ 16 ≡ g = omega arith in
    rw (ea, eb, ec, ed, ee, ef, eh) (rw ((==_iff g g).1 refl) refl)

joined :
    (k0 k1 k2 k3 : ℕ)
    → k0 < 2 ^ 8
    → k1 < 2 ^ 8
    → k2 < 2 ^ 8
    → k3 < 2 ^ 8
    → bit_or (bit_or (bit_or k0 (shl32 k1 8)) (shl32 k2 16)) (shl32 k3 24)
      ≡ k0 + k1 * 2 ^ 8 + k2 * 2 ^ 16 + k3 * 2 ^ 24
joined k0 k1 k2 k3 h0 h1 h2 h3 =
    let e1 : shl32 k1 8 ≡ k1 * 2 ^ 8 = mod-eq_of_lt (omega arith) in
    let e2 : shl32 k2 16 ≡ k2 * 2 ^ 16 = mod-eq_of_lt (omega arith) in
    let e3 : shl32 k3 24 ≡ k3 * 2 ^ 24 = mod-eq_of_lt (omega arith) in
    rw
      (
        e1,
        e2,
        e3,
        bit_or-above 8 k0 k1 h0,
        bit_or-above 16 (k0 + k1 * 2 ^ 8) k2 (omega arith),
        bit_or-above 24 (k0 + k1 * 2 ^ 8 + k2 * 2 ^ 16) k3 (omega arith),
      )
      refl

-- The key from four bytes.
pub construct-key :
    (xs : List ℕ) (i k0 k1 k2 k3 : ℕ)
    → i + 3 < length xs
    → k0 < 2 ^ 8
    → k1 < 2 ^ 8
    → k2 < 2 ^ 8
    → k3 < 2 ^ 8
    → construct xs i
        (bit_xor k0 (at_place xs (i + 3)))
        (bit_xor k3 (at_place xs i))
        (bit_xor k1 (at_place xs (i + 2)))
        (bit_xor k2 (at_place xs (i + 1)))
      ≡ done (k0 + k1 * 2 ^ 8 + k2 * 2 ^ 16 + k3 * 2 ^ 24)
unfolding construct
construct-key xs i k0 k1 k2 k3 h h0 h1 h2 h3 =
    rw
      (
        index-at_place xs (i + 3) h,
        index-at_place xs (i + 2) (omega arith),
        index-at_place xs (i + 1) (omega arith),
        index-at_place xs i (omega arith),
        bit_xor-twice k0 (at_place xs (i + 3)),
        bit_xor-twice k1 (at_place xs (i + 2)),
        bit_xor-twice k2 (at_place xs (i + 1)),
        bit_xor-twice k3 (at_place xs i),
      )
      (ap done (joined k0 k1 k2 k3 h0 h1 h2 h3))

-- Both tables.
unfoldable pub Bytes : List ℕ → Type 0
Bytes xs = (n : ℕ) → at_place xs n < 2 ^ 8

fits_byte : List ℕ → Bool
fits_byte [] = true
fits_byte (x ∷ xs) = ltb x (2 ^ 8) && fits_byte xs

fits_byte-Bytes : (xs : List ℕ) → fits_byte xs ≡ true → Bytes xs
unfolding fits_byte Bytes
fits_byte-Bytes [] h n = omega arith
fits_byte-Bytes (x ∷ xs) h zero = ground (arith, h)
fits_byte-Bytes (x ∷ xs) h (suc n) = fits_byte-Bytes xs (ground (arith, h)) n

unfoldable pub IsSbox : List ℕ → Type 0
IsSbox xs = (length xs ≡ 16) × Bytes xs

pub sbox_of-IsSbox : (x : ℕ) → IsSbox (sbox_of x)
unfolding IsSbox
sbox_of-IsSbox x = elim (Bool-cases (x == 0x19)) [
  | inl h ↦ rw h (refl, fits_byte-Bytes sbox2 (unfold fits_byte in refl))
  | inr h ↦ rw h (refl, fits_byte-Bytes sbox1 (unfold fits_byte in refl))
]

sbox1-IsSbox : IsSbox sbox1
unfolding IsSbox
sbox1-IsSbox = (refl, fits_byte-Bytes sbox1 (unfold fits_byte in refl))

-- The two values that choose a table.
unfoldable pub IsMarker : ℕ → Type 0
IsMarker x = (x ≡ 0x19) ⊎ (x ≡ 0x72)

-- With a place and a marker in range, the key is constructed from the table of the marker.
unlock-construct :
    (i x a b c d : ℕ)
    → i ≤ 12
    → IsMarker x
    → unlock a b c d (bit_xor x (at_place sbox1 (16 - 1 - i))) (bit_xor i 0x6b)
      ≡ construct (sbox_of x) i a b c d
unfolding unlock IsMarker
unlock-construct i x a b c d h marker =
    let place : ltb 12 i ≡ false = ground arith in
    let known : (not (x == 0x19) && not (x == 0x72)) ≡ false = ground (arith, marker) in
    rw
      (
        bit_xor-twice i 0x6b,
        place,
        index-at_place sbox1 (16 - 1 - i) (omega arith),
        bit_xor-twice x (at_place sbox1 (16 - 1 - i)),
        known,
      )
      refl

-- The word is one that a program may send for the key.
abbrev pub IsWordOf : ℕ → ℕ → Type 0
IsWordOf v key =
    (i : ℕ) × (x : ℕ) × (i ≤ 12) × ((x ≡ 0x19) ⊎ (x ≡ 0x72)) × (key < 2 ^ 32) × (v ≡ encode key i x)

key_bytes :
    (key : ℕ)
    → key < 2 ^ 32
    → key % 2 ^ 8
        + key / 2 ^ 8 % 2 ^ 8 * 2 ^ 8
        + key / 2 ^ 16 % 2 ^ 8 * 2 ^ 16
        + key / 2 ^ 24 * 2 ^ 24
      ≡ key
key_bytes key h = omega arith

pub decrypt-encode :
    (key i x : ℕ) → key < 2 ^ 32 → i ≤ 12 → IsMarker x → decrypt (encode key i x) ≡ done (ok key)
unfolding encode IsSbox Bytes IsMarker
decrypt-encode key i x fits low marker =
    let s = sbox_of x in
    let (len, small) = sbox_of-IsSbox x in
    let (len1, small1) = sbox1-IsSbox in
    let a = bit_xor (key % 2 ^ 8) (at_place s (i + 3)) in
    let b = bit_xor (key / 2 ^ 24) (at_place s i) in
    let c = bit_xor (key / 2 ^ 8 % 2 ^ 8) (at_place s (i + 2)) in
    let d = bit_xor (key / 2 ^ 16 % 2 ^ 8) (at_place s (i + 1)) in
    let e = bit_xor x (at_place sbox1 (16 - 1 - i)) in
    let f = bit_xor i 0x6b in
    let k3 : key / 2 ^ 24 < 2 ^ 8 = omega arith in
    let opened : decrypt (encode key i x) ≡ (unlock a b c d e f >>= λ k. done (ok k)) =
      decrypt-packed a b c d e f
        (bit_xor-bound 8 (key % 2 ^ 8) (at_place s (i + 3)) (omega arith) (small (i + 3)))
        (bit_xor-bound 8 (key / 2 ^ 24) (at_place s i) k3 (small i))
        (bit_xor-bound 8 (key / 2 ^ 8 % 2 ^ 8) (at_place s (i + 2)) (omega arith) (small (i + 2)))
        (bit_xor-bound 8 (key / 2 ^ 16 % 2 ^ 8) (at_place s (i + 1)) (omega arith) (small (i + 1)))
        (bit_xor-bound 8 x (at_place sbox1 (16 - 1 - i)) (ground (arith, marker))
          (small1 (16 - 1 - i)))
        (bit_xor-bound 8 i 0x6b (omega arith) (omega arith)) in
    let built : construct s i a b c d ≡ done key =
      construct-key s i (key % 2 ^ 8) (key / 2 ^ 8 % 2 ^ 8) (key / 2 ^ 16 % 2 ^ 8) (key / 2 ^ 24)
        (omega (arith, len)) (omega arith) (omega arith) (omega arith) k3
      ∙ ap done (key_bytes key fits) in
    opened ∙ ap (λ m. m >>= λ k. done (ok k)) (unlock-construct i x a b c d low marker ∙ built)
