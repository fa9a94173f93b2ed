-- ===== src/Legacy/RegMgr/Calls.antt =====
-- legacy/src/regmgr/mod.rs: the two system calls of the registry.
use obliteration.Prelude.{
  ℕ, ◌/◌, ◌%◌, ◌^◌, ◌<◌, ◌≤◌, ◌≡◌, ◌≢◌, refl, sym, ap, ◌∙◌, inl, inr, Bool, true, false, not, ◌&&◌,
  ◌||◌, some, ltb, leb, ◌==◌, if◌then◌else◌, get_elem?, Result, ok, err, Flow, done, panic, ◌>>=◌,
  and_then_ok, unfinished, arith, bit_and, Bool-cases, ℕ_discrete, subst,
}
use obliteration.Prelude.Bits.{bit_and-ones, bit_and-window, bit_and-zero}
use obliteration.Legacy.RegMgr.{
  Cred, is_nongame, web_of, not32, is_libkernel_web, is_webprocess_webapp_or_webmas, decode_key,
  authorize, check_entry, set_int, get_int, Request, written, sys_regmgr_call, is_debug_key,
  sys_workaround8849, lookup, lookup_in, has_key, has_later_key, check_param, get_value, is_special,
}
use obliteration.Legacy.RegMgr.Words.{decrypt}
use obliteration.Legacy.RegMgr.Entry.{RegEntry, RegError, v800d0206, v800d0214, v800d021f, code}
use obliteration.Legacy.RegMgr.Table.{entries}
use obliteration.Legacy.RegMgr.Keys.{Owns}
use obliteration.Legacy.RegMgr.Codec.{IsWordOf}
use obliteration.Legacy.RegMgr.Decode.{decrypt-iff_IsWordOf}
use obliteration.Legacy.RegMgr.Setting.{Plain, lookup-Owns, set_int-Plain, entries-bounds}

-- A process of the browser.
abbrev pub is_web : Cred → Bool
is_web cred = is_libkernel_web cred || is_webprocess_webapp_or_webmas cred

-- What a game gets when it sets a number of the registry, by the bits 1 and 13 of the entry.
abbrev pub set_answer : RegEntry → ℕ → Bool → ℕ → ℕ → Flow ℕ
set_answer e key web v2 value =
    if e.unk3 / 2 ^ 1 % 2 == 0
    then done 0x800d0214
    else if web && e.unk3 / 2 ^ 13 % 2 == 0
    then done 0x800d021f
    else if e.unk2 == 8 || e.unk2 == 16
    then panic unfinished
    else if not (v2 == 0)
    then done 0x800d0206
    else if 0x141E0500 == key || e.value == value
    then done 0
    else panic unfinished

may_write : (v : ℕ) → (bit_and v 2 == 0) ≡ (v / 2 ^ 1 % 2 == 0)
may_write v = rw (bit_and-window 1 1 v) ground arith

web_may_write :
    (v : ℕ) (cred : Cred)
    → v < 2 ^ 32
    → not (bit_and (not32 (v / 2 ^ 13)) (web_of cred) == 0) ≡ (is_web cred && v / 2 ^ 13 % 2 == 0)
web_may_write v cred h = elim (Bool-cases (is_web cred)) [
  | inl web ↦ rw (web, bit_and-ones 1 (not32 (v / 2 ^ 13))) ground (arith, h)
  | inr other ↦ rw (other, bit_and-zero (not32 (v / 2 ^ 13))) refl
]

-- The end of `decode_key`, and what is done with its key.
after_checks :
    (p q t z s : Bool) (key : ℕ) (next : ℕ → Flow (Result ℕ RegError))
    → next key ≡ (if s then done (ok 0) else panic unfinished)
    → (and_then_ok
          (if p
            then done (err v800d0214)
            else if q
            then done (err v800d021f)
            else if t
            then panic unfinished
            else if z
            then done (err v800d0206)
            else done (ok key))
          next
        >>= λ res. done (written res))
      ≡ (if p
          then done 0x800d0214
          else if q
          then done 0x800d021f
          else if t
          then panic unfinished
          else if z
          then done 0x800d0206
          else if s
          then done 0
          else panic unfinished)
unfolding code
after_checks true q t z s key next h = refl
after_checks false true t z s key next h = refl
after_checks false false true z s key next h = refl
after_checks false false false true s key next h = refl
after_checks false false false false true key next h = ap (λ m. m >>= λ res. done (written res)) h
after_checks false false false false false key next h = ap (λ m. m >>= λ res. done (written res)) h

decode_key-entry :
    (v1 v2 key : ℕ) (cred : Cred) (e : RegEntry)
    → decrypt v1 ≡ done (ok key)
    → lookup key ≡ done (some e)
    → decode_key v1 v2 cred 2 ≡ check_entry e key v2 cred
unfolding decode_key authorize
decode_key-entry v1 v2 key cred e h found = rw (h, found) refl

-- A request with the number 0x18, from a game.
abbrev pub IsSetting : Request → Type 0
IsSetting r =
    (r.op ≡ 0x18)
    × (r.buf ≢ 0)
    × (r.req ≢ 0)
    × (r.reqlen ≤ 2048)
    × (r.v1 < 2 ^ 64)
    × (r.value < 2 ^ 32)

sys_regmgr_call-op :
    (cred : Cred) (r : Request)
    → IsSetting r
    → sys_regmgr_call cred r ≡ (
        and_then_ok (decode_key r.v1 r.v2 cred 2) (λ k. set_int k r.value) >>= λ res.
        done (written res))
unfolding sys_regmgr_call
sys_regmgr_call-op cred r (op, buf, req, len, v1, value) =
    let small : leb (2 ^ 32) r.op ≡ false = ground (arith, op) in
    let valid : (r.buf == 0 || r.req == 0 || ltb 2048 r.reqlen) ≡ false =
      ground (arith, buf, req, len) in
    let is_op : (r.op == 0x18) ≡ true = ground (arith, op) in rw (small, valid, is_op) refl

-- A valid request of a game to set the key of an entry of the table, by any word that stands for the key. The entry holds a
-- number of four bytes in the table itself, and the key is none of those that `get_value` leaves open. What is
-- written back is 0x800d0214 where the bit 1 of the entry is clear; for a process of the browser 0x800d021f where its
-- bit 13 is clear; 0x800d0206 where the second number of the request is not 0; and 0 where the value is the one that
-- the table holds, or the key is 0x141E0500. It is the panic of a `todo!()` for another value, and, before the second number is read, for the
-- kinds 8 and 16 of entries.
pub sys_regmgr_call-set_answer :
    (cred : Cred) (r : Request) (n key : ℕ) (e : RegEntry)
    → is_nongame cred ≡ false
    → IsSetting r
    → IsWordOf r.v1 key
    → get_elem? entries n ≡ some e
    → Owns e key
    → Plain e key
    → sys_regmgr_call cred r ≡ set_answer e key (is_web cred) r.v2 r.value
unfolding check_entry
sys_regmgr_call-set_answer cred r n key e game is_set word at own plain =
    let found = lookup-Owns n e key at own in
    let (fits, bits) = entries-bounds n e at in
    let decoded = (decrypt-iff_IsWordOf r.v1 key is_set.4).1 word in
    let set = set_int-Plain e key found plain r.value is_set.5 fits in
    sys_regmgr_call-op cred r is_set
    ∙ rw
        (
          decode_key-entry r.v1 r.v2 key cred e decoded found,
          game,
          may_write e.unk3,
          web_may_write e.unk3 cred bits,
        )
        (after_checks (e.unk3 / 2 ^ 1 % 2 == 0) (is_web cred && e.unk3 / 2 ^ 13 % 2 == 0)
          (e.unk2 == 8 || e.unk2 == 16) (not (r.v2 == 0)) (0x141E0500 == key || e.value == r.value)
          key (λ k. set_int k r.value) set)

-- `get_int` on a key of `sys_workaround8849`.
get_int-debug : (arg : ℕ) → is_debug_key arg ≡ true → get_int arg ≡ done 0
unfolding is_debug_key get_int check_param get_value lookup lookup_in has_key has_later_key
    is_special
get_int-debug arg h = elim (ℕ_discrete arg 0x19810000) [
  | yes a ↦ subst (λ t. get_int t ≡ done 0) (sym a) refl
  | no a ↦ elim (ℕ_discrete arg 0x3CC80700) [
    | yes b ↦ subst (λ t. get_int t ≡ done 0) (sym b) refl
    | no b ↦ elim (ℕ_discrete arg 0x78026400) [
      | yes c ↦ subst (λ t. get_int t ≡ done 0) (sym c) refl
      | no c ↦ elim (ℕ_discrete arg 0x78028300) [
        | yes d ↦ subst (λ t. get_int t ≡ done 0) (sym d) refl
        | no d ↦ elim (ℕ_discrete arg 0x78028A00) [
          | yes e ↦ subst (λ t. get_int t ≡ done 0) (sym e) refl
          | no e ↦ absurd (ground (arith, h, a, b, c, d, e))
        ]
      ]
    ]
  ]
]

-- The call 605 never panics on a number of 32 bits: it answers 0 for the keys that it knows, whether the table
-- has them or not, and `EINVAL` for all others.
pub sys_workaround8849-total :
    (arg : ℕ)
    → arg < 2 ^ 32
    → sys_workaround8849 arg
      ≡ done (
          if arg == 0x19810000
            || arg == 0x3CC80700
            || arg == 0x78026400
            || arg == 0x78028300
            || arg == 0x78028A00
          then ok 0
          else err 22)
unfolding sys_workaround8849 is_debug_key
sys_workaround8849-total arg h =
    let small : leb (2 ^ 32) arg ≡ false = ground arith in
    elim (Bool-cases (is_debug_key arg)) [
      | inl debug ↦ rw (small, debug, get_int-debug arg debug) refl
      | inr other ↦ rw (small, other) refl
    ]
