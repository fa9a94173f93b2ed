-- ===== src/Legacy/RegMgr/Words.antt =====
-- legacy/src/regmgr/mod.rs: the decryption of the word that names a key.
use obliteration.Prelude.{
  ℕ, ◌+◌, ◌-◌, ◌*◌, ◌/◌, ◌%◌, ◌^◌, not, ◌&&◌, List, [], ◌∷◌, ◌==◌, ltb, if◌then◌else◌, bit_and,
  bit_or, Result, ok, err, Flow, done, panic, ◌>>=◌, index, unfinished,
}
use Prim.Native.Nat.{bit_xor}
use obliteration.Legacy.RegMgr.Entry.{RegError, checksum_mismatched}

-- `v << s` on 32 bits, for `s` below 32.
abbrev pub shl32 : ℕ → ℕ → ℕ
shl32 v s = v * 2 ^ s % 2 ^ 32

abbrev pub sbox1 : List ℕ
sbox1 =
    0x68 ∷ 0xe8 ∷ 0x98 ∷ 0x03 ∷ 0x9a ∷ 0x70 ∷ 0x23 ∷ 0x5a ∷ 0x63 ∷ 0xee ∷ 0xf5 ∷ 0x7b ∷ 0xff ∷ 0xa4
    ∷ 0x4c ∷ 0x8c ∷ []

abbrev pub sbox2 : List ℕ
sbox2 =
    0x14 ∷ 0xee ∷ 0xde ∷ 0xe1 ∷ 0x80 ∷ 0xac ∷ 0xf3 ∷ 0x78 ∷ 0x47 ∷ 0x43 ∷ 0xdb ∷ 0x40 ∷ 0x93 ∷ 0xdd
    ∷ 0xb1 ∷ 0x34 ∷ []

-- The byte number `n` of `v1`.
abbrev pub byte : ℕ → ℕ → ℕ
byte v1 n = bit_and (v1 / 2 ^ (8 * n)) 0xff

-- The construction of the key, with the table at hand.
unfoldable pub construct : List ℕ → ℕ → ℕ → ℕ → ℕ → ℕ → Flow ℕ
construct sbox i a b c d = index sbox (i + 3) >>= λ s3. index sbox (i + 2) >>= λ s2.
    index sbox (i + 1) >>= λ s1. index sbox i >>= λ s0. done (
      bit_or (bit_or (bit_or (bit_xor a s3) (shl32 (bit_xor c s2) 8)) (shl32 (bit_xor d s1) 16))
        (shl32 (bit_xor b s0) 24))

-- The part of `decode_key` that decrypts, from six bytes.
unfoldable pub unlock : ℕ → ℕ → ℕ → ℕ → ℕ → ℕ → Flow ℕ
unlock a b c d e f =
    let i = bit_xor f 0x6b in
    if ltb 12 i
    then panic unfinished
    else (index sbox1 (16 - 1 - i) >>= λ s.
        let x = bit_xor e s in
        if not (x == 0x19) && not (x == 0x72)
        then panic unfinished
        else construct (if x == 0x19 then sbox2 else sbox1) i a b c d)

unfoldable pub verify : ℕ → ℕ → ℕ → ℕ → ℕ → ℕ → ℕ → Flow (Result ℕ RegError)
verify a b c d e f h =
    let g = (a + b + c + d + e * f) % 2 ^ 16 in
    if not (g == h)
    then done (err (checksum_mismatched h g))
    else (unlock a b c d e f >>= λ key. done (ok key))

-- `decode_key` up to the construction of the key.
unfoldable pub decrypt : ℕ → Flow (Result ℕ RegError)
decrypt v1 =
    verify (byte v1 0) (byte v1 1) (byte v1 2) (byte v1 3) (byte v1 4) (byte v1 5)
      (v1 / 2 ^ 48 % 2 ^ 16)
