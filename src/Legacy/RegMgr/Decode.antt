-- ===== src/Legacy/RegMgr/Decode.antt =====
-- legacy/src/regmgr/mod.rs: the words that are accepted, and what they decrypt to.
use obliteration.Prelude.{
  ℕ, ◌+◌, ◌-◌, ◌*◌, ◌/◌, ◌%◌, ◌^◌, ◌≤◌, ◌<◌, ◌≡◌, ◌≢◌, sym, ap, ◌∙◌, false, not, ◌&&◌, List, ◌==◌,
  ltb, if◌then◌else◌, done, panic, ok, err, ◌>>=◌, index, arith, ==_iff, subst, ℕ_discrete, ◌↔◌,
  if_not-done, bind-done, done-injective, unfinished, ok-injective,
}
use obliteration.Prelude.Bits.{bit_and-ones}
use obliteration.Prelude.BitXor.{bit_xor-twice, bit_xor-bound}
use Prim.Native.Nat.{bit_xor}
use obliteration.Legacy.RegMgr.Words.{decrypt, verify, unlock, construct, byte, sbox1}
use obliteration.Legacy.RegMgr.Entry.{checksum_mismatched}
use obliteration.Legacy.RegMgr.Codec.{
  at_place, sbox_of, packed, encode, Bytes, IsSbox, sbox_of-IsSbox, IsMarker, IsWordOf,
  index-at_place, construct-key, decrypt-encode,
}

-- What an accepted word unlocks with.
unlock-inverse :
    (a b c d e f key : ℕ)
    → unlock a b c d e f ≡ done key
    → (i : ℕ) × (x : ℕ) × (i ≤ 12)
      × IsMarker x
      × (e ≡ bit_xor x (at_place sbox1 (16 - 1 - i)))
      × (f ≡ bit_xor i 0x6b)
      × (construct (sbox_of x) i a b c d ≡ done key)
unfolding unlock IsMarker
unlock-inverse a b c d e f key h =
    let i = bit_xor f 0x6b in
    let (low, first) =
      if_not-done (ltb 12 i)
        (index sbox1 (16 - 1 - i) >>= λ s.
          if not (bit_xor e s == 0x19) && not (bit_xor e s == 0x72)
          then panic unfinished
          else construct (sbox_of (bit_xor e s)) i a b c d)
        unfinished h in
    let (s, at, second) =
      bind-done (index sbox1 (16 - 1 - i))
        (λ s.
          if not (bit_xor e s == 0x19) && not (bit_xor e s == 0x72)
          then panic unfinished
          else construct (sbox_of (bit_xor e s)) i a b c d)
        first in
    let x = bit_xor e s in
    let (marker, built) =
      if_not-done (not (x == 0x19) && not (x == 0x72)) (construct (sbox_of x) i a b c d) unfinished
        second in
    let place : at_place sbox1 (16 - 1 - i) ≡ s =
      done-injective (sym (index-at_place sbox1 (16 - 1 - i) (omega arith)) ∙ at) in
    (
      i,
      x,
      ground (arith, low),
      ground (arith, marker),
      rw place (sym (bit_xor-twice e s)),
      sym (bit_xor-twice f 0x6b),
      built,
    )

construct-inverse :
    (xs : List ℕ) (i a b c d key : ℕ)
    → IsSbox xs
    → i ≤ 12
    → a < 2 ^ 8
    → b < 2 ^ 8
    → c < 2 ^ 8
    → d < 2 ^ 8
    → construct xs i a b c d ≡ done key
    → (key < 2 ^ 32)
      × (a ≡ bit_xor (key % 2 ^ 8) (at_place xs (i + 3)))
      × (b ≡ bit_xor (key / 2 ^ 24) (at_place xs i))
      × (c ≡ bit_xor (key / 2 ^ 8 % 2 ^ 8) (at_place xs (i + 2)))
      × (d ≡ bit_xor (key / 2 ^ 16 % 2 ^ 8) (at_place xs (i + 1)))
unfolding IsSbox Bytes
construct-inverse xs i a b c d key (len, small) low ha hb hc hd h =
    let k0 = bit_xor a (at_place xs (i + 3)) in
    let k3 = bit_xor b (at_place xs i) in
    let k1 = bit_xor c (at_place xs (i + 2)) in
    let k2 = bit_xor d (at_place xs (i + 1)) in
    let h0 : k0 < 2 ^ 8 = bit_xor-bound 8 a (at_place xs (i + 3)) ha (small (i + 3)) in
    let h3 : k3 < 2 ^ 8 = bit_xor-bound 8 b (at_place xs i) hb (small i) in
    let h1 : k1 < 2 ^ 8 = bit_xor-bound 8 c (at_place xs (i + 2)) hc (small (i + 2)) in
    let h2 : k2 < 2 ^ 8 = bit_xor-bound 8 d (at_place xs (i + 1)) hd (small (i + 1)) in
    let same_a : bit_xor k0 (at_place xs (i + 3)) ≡ a = bit_xor-twice a (at_place xs (i + 3)) in
    let same_b : bit_xor k3 (at_place xs i) ≡ b = bit_xor-twice b (at_place xs i) in
    let same_c : bit_xor k1 (at_place xs (i + 2)) ≡ c = bit_xor-twice c (at_place xs (i + 2)) in
    let same_d : bit_xor k2 (at_place xs (i + 1)) ≡ d = bit_xor-twice d (at_place xs (i + 1)) in
    let built = construct-key xs i k0 k1 k2 k3 (omega (arith, len)) h0 h1 h2 h3 in
    let moved : construct xs i a b c d ≡ done (k0 + k1 * 2 ^ 8 + k2 * 2 ^ 16 + k3 * 2 ^ 24) =
      cc (built, same_a, same_b, same_c, same_d) in
    let whole : key ≡ k0 + k1 * 2 ^ 8 + k2 * 2 ^ 16 + k3 * 2 ^ 24 =
      done-injective (sym h ∙ moved) in
    let e0 : key % 2 ^ 8 ≡ k0 = omega arith in
    let e1 : key / 2 ^ 8 % 2 ^ 8 ≡ k1 = omega arith in
    let e2 : key / 2 ^ 16 % 2 ^ 8 ≡ k2 = omega arith in
    let e3 : key / 2 ^ 24 ≡ k3 = omega arith in
    (
      omega arith,
      sym (ap (λ t. bit_xor t (at_place xs (i + 3))) e0 ∙ same_a),
      sym (ap (λ t. bit_xor t (at_place xs i)) e3 ∙ same_b),
      sym (ap (λ t. bit_xor t (at_place xs (i + 2))) e1 ∙ same_c),
      sym (ap (λ t. bit_xor t (at_place xs (i + 1))) e2 ∙ same_d),
    )

byte-bound : (v n : ℕ) → byte v n < 2 ^ 8
byte-bound v n = omega (arith, bit_and-ones 8 (v / 2 ^ (8 * n)))

-- A word is the one of its bytes, when its checksum is theirs.
packed-bytes :
    (v : ℕ)
    → v < 2 ^ 64
    → (byte v 0 + byte v 1 + byte v 2 + byte v 3 + byte v 4 * byte v 5) % 2 ^ 16
      ≡ v / 2 ^ 48 % 2 ^ 16
    → v ≡ packed (byte v 0) (byte v 1) (byte v 2) (byte v 3) (byte v 4) (byte v 5)
packed-bytes v h eq = omega (
  arith,
  eq,
  bit_and-ones 8 (v / 2 ^ 0),
  bit_and-ones 8 (v / 2 ^ 8),
  bit_and-ones 8 (v / 2 ^ 16),
  bit_and-ones 8 (v / 2 ^ 24),
  bit_and-ones 8 (v / 2 ^ 32),
  bit_and-ones 8 (v / 2 ^ 40),
)

unequal : (x y : ℕ) → x ≢ y → (x == y) ≡ false
unequal x y ne = ground (arith, ne)

verify-accepts :
    (a b c d e f h key : ℕ)
    → verify a b c d e f h ≡ done (ok key)
    → ((a + b + c + d + e * f) % 2 ^ 16 ≡ h) × (unlock a b c d e f ≡ done key)
unfolding verify
verify-accepts a b c d e f h key eq =
    let g = (a + b + c + d + e * f) % 2 ^ 16 in
    elim (ℕ_discrete g h) [
      | yes same ↦
          let (k, out, last) =
            bind-done (unlock a b c d e f) (λ k. done (ok k))
              (subst
                (λ t.
                  (if not t
                    then done (err (checksum_mismatched h g))
                    else (unlock a b c d e f >>= λ k. done (ok k)))
                  ≡ done (ok key))
                ((==_iff g h).1 same) eq) in
          (same, out ∙ ap done (ok-injective last))
      | no differ ↦ cc (
          subst
            (λ t.
              (if not t
                then done (err (checksum_mismatched h g))
                else (unlock a b c d e f >>= λ k. done (ok k)))
              ≡ done (ok key))
            (unequal g h differ) eq)
    ]

decrypt-IsWordOf : (v key : ℕ) → v < 2 ^ 64 → decrypt v ≡ done (ok key) → IsWordOf v key
unfolding decrypt encode IsMarker
decrypt-IsWordOf v key h eq =
    let a = byte v 0 in
    let b = byte v 1 in
    let c = byte v 2 in
    let d = byte v 3 in
    let e = byte v 4 in
    let f = byte v 5 in
    let (sum, out) = verify-accepts a b c d e f (v / 2 ^ 48 % 2 ^ 16) key eq in
    let (i, x, low, marker, is_e, is_f, built) = unlock-inverse a b c d e f key out in
    let (fits, is_a, is_b, is_c, is_d) =
      construct-inverse (sbox_of x) i a b c d key (sbox_of-IsSbox x) low (byte-bound v 0)
        (byte-bound v 1) (byte-bound v 2) (byte-bound v 3) built in
    let whole : v ≡ packed a b c d e f = packed-bytes v h sum in
    (i, x, low, marker, fits, whole ∙ cc (is_a, is_b, is_c, is_d, is_e, is_f))

-- A 64-bit word decrypts to a key exactly when it is the word that some place and marker give for the key.
pub decrypt-iff_IsWordOf : (v key : ℕ) → v < 2 ^ 64 → (decrypt v ≡ done (ok key)) ↔ IsWordOf v key
unfolding IsMarker
decrypt-iff_IsWordOf v key h = (
  decrypt-IsWordOf v key h,
  λ word.
      let (i, x, low, marker, fits, eq) = word in
      ap decrypt eq ∙ decrypt-encode key i x fits low marker,
)
