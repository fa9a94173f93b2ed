-- ===== src/Legacy/RegMgr.antt =====
-- legacy/src/regmgr/mod.rs, with the questions to the credential from legacy/src/ucred: the registry. A
-- `RegKey` is its number, an `i32` its 32 bits, and a request is what the code reads from the caller's
-- memory.
pub mod Entry
pub mod Table
pub mod Words
pub mod Keys
pub mod Lookup
pub mod Codec
pub mod Decode
pub mod Setting
pub mod Calls
use obliteration.Prelude.{
  ℕ, zero, suc, ◌+◌, ◌-◌, ◌*◌, ◌/◌, ◌%◌, ◌^◌, Bool, true, false, not, ◌&&◌, ◌||◌, Option, none,
  some, List, [], ◌∷◌, ◌++◌, length, take, drop, replicate, ◌==◌, ltb, leb, if◌then◌else◌, bit_and,
  bit_or, Result, ok, err, Flow, done, panic, ◌>>=◌, index, add32, and_then_ok, overflow,
  out_of_bounds, unfinished, unwrap_none,
}
use Prim.Native.Nat.{bit_xor}
use obliteration.Legacy.RegMgr.Entry.{
  RegEntry, RegError, code, not_found, v800d0206, v800d0207, v800d0208, v800d0214, v800d0216,
  v800d0219, v800d021f,
}
use obliteration.Legacy.RegMgr.Words.{shl32, decrypt}
use obliteration.Legacy.RegMgr.Table.{entries}

-- The fields of `Ucred` that the registry asks about: `auth.paid` and `auth.caps.0[0]`.
pub record Cred : Type 0 where
  pub paid : ℕ
  pub caps : ℕ

unfoldable pub is_libkernel_web : Cred → Bool
is_libkernel_web c =
    let val = (c.paid + 0xc7ffffffeffffffc) % 2 ^ 64 in
    ltb val 0xf && not (bit_and (0x6001 / 2 ^ bit_and val 0x3f) 1 == 0)

unfoldable pub is_webprocess_webapp_or_webmas : Cred → Bool
is_webprocess_webapp_or_webmas c = c.paid == 0x380000001000000f || c.paid == 0x3800000010000013

unfoldable pub is_nongame : Cred → Bool
is_nongame c = not (bit_and c.caps 0x1000000000000000 == 0)

-- The loop of `lookup` over the other keys of an entry, from number `v` on.
unfoldable pub has_later_key : ℕ → ℕ → RegEntry → ℕ → Flow Bool
has_later_key zero v e key = done false
has_later_key (suc n) v e key = add32 (shl32 v (bit_and e.unk2 0x1f)) e.key >>= λ k.
    elim (k == key) [ true ↦ done true | false ↦ has_later_key n (suc v) e key ]

unfoldable pub has_key : RegEntry → ℕ → Flow Bool
has_key e key = elim (e.key == key) [
  | true ↦ done true
  | false ↦ has_later_key (e.unk1 - 1) 1 e key
]

-- `lookup`, on a list of entries.
unfoldable pub lookup_in : List RegEntry → ℕ → Flow (Option RegEntry)
lookup_in [] key = done none
lookup_in (e ∷ es) key =
    has_key e key >>= λ found. elim found [ true ↦ done (some e) | false ↦ lookup_in es key ]

unfoldable pub lookup : ℕ → Flow (Option RegEntry)
lookup key = lookup_in entries key

-- 1 for a process of the browser.
abbrev pub web_of : Cred → ℕ
web_of cred = if is_libkernel_web cred || is_webprocess_webapp_or_webmas cred then 1 else 0

-- `!v` on 32 bits.
abbrev pub not32 : ℕ → ℕ
not32 v = 2 ^ 32 - 1 - v

-- The first of the two checks of an entry, for requests that read.
unfoldable pub check_read : RegEntry → Cred → Option RegError
check_read entry cred =
    if is_nongame cred && bit_and entry.unk3 0x10 == 0
    then some v800d0216
    else if bit_and entry.unk3 1 == 0
    then some v800d0214
    else if not (bit_and (not32 (entry.unk3 / 2 ^ 12)) (web_of cred) == 0)
    then some v800d021f
    else none

unfoldable pub check_entry : RegEntry → ℕ → ℕ → Cred → Flow (Result ℕ RegError)
check_entry entry key v2 cred =
    if is_nongame cred
    then panic unfinished
    else if bit_and entry.unk3 2 == 0
    then done (err v800d0214)
    else if not (bit_and (not32 (entry.unk3 / 2 ^ 13)) (web_of cred) == 0)
    then done (err v800d021f)
    else if entry.unk2 == 8 || entry.unk2 == 16
    then panic unfinished
    else if not (v2 == 0)
    then done (err v800d0206)
    else done (ok key)

-- The rest of `decode_key`.
unfoldable pub authorize : ℕ → ℕ → Cred → ℕ → Flow (Result ℕ RegError)
authorize key v2 cred v3 = lookup key >>= λ found. elim found [
  | none ↦ done (err (not_found key))
  | some entry ↦ elim (if v3 == 1 then check_read entry cred else none) [
    | some e ↦ done (err e)
    | none ↦ check_entry entry key v2 cred
  ]
]

unfoldable pub decode_key : ℕ → ℕ → Cred → ℕ → Flow (Result ℕ RegError)
decode_key v1 v2 cred v3 = and_then_ok (decrypt v1) λ key. authorize key v2 cred v3

-- The bytes of a 32-bit number, the lowest first.
abbrev pub to_le_bytes : ℕ → List ℕ
to_le_bytes v = v % 2 ^ 8 ∷ v / 2 ^ 8 % 2 ^ 8 ∷ v / 2 ^ 16 % 2 ^ 8 ∷ v / 2 ^ 24 % 2 ^ 8 ∷ []

abbrev pub from_le_bytes : List ℕ → ℕ
from_le_bytes [] = 0
from_le_bytes (b ∷ bs) = b + 2 ^ 8 * from_le_bytes bs

-- `check_param`; the entry that it returns is used by nobody.
unfoldable pub check_param : ℕ → ℕ → ℕ → Flow (Option RegError)
check_param key v1 len = lookup key >>= λ found. elim found [
  | none ↦ done none
  | some entry ↦
      if not (entry.unk4 == v1)
      then done (some v800d0207)
      else if v1 == 1
      then panic unfinished
      else if not (v1 == 2) && not (v1 == 0)
      then done (some v800d0207)
      else if entry.len == len
      then done none
      else done (some v800d0208)
]

-- The keys that `get_value` does not handle yet.
unfoldable pub is_special : ℕ → Bool
is_special key =
    key == 0x01050000
    || key == 0x02010000
    || key == 0x02820E00
    || key == 0x02860100
    || key == 0x02860200
    || key == 0x02860300
    || key == 0x78020300

-- `get_value` into a buffer.
unfoldable pub get_value : ℕ → List ℕ → Flow (Result (List ℕ) RegError)
get_value key buf =
    if is_special key
    then panic unfinished
    else (lookup key >>= λ found. elim found [
      | none ↦ done (ok buf)
      | some entry ↦
          if ltb (length buf) entry.len
          then done (err v800d0208)
          else if not (entry.unk5 == 2)
          then panic unfinished
          else if not (entry.unk6 == 1)
          then panic unfinished
          else if entry.unk4 == 1
          then panic unfinished
          else if ltb 4 entry.len
          then panic out_of_bounds
          else done (ok (take entry.len (to_le_bytes entry.value) ++ drop entry.len buf))
    ])

-- `get_int`: the number that it writes to `out`. It returns `Ok(0)`.
unfoldable pub get_int : ℕ → Flow ℕ
get_int key = check_param key 0 4 >>= λ checked. elim checked [
  | some e ↦ panic unfinished
  | none ↦ get_value key (replicate 4 0) >>= λ got. elim got [
    | err e ↦ panic unfinished
    | ok buf ↦ done (from_le_bytes buf)
  ]
]

-- `RegUnk6`, with the fields that are read.
pub record RegUnk6 : Type 0 where
  pub key : ℕ
  pub unk1 : ℕ
  pub unk2 : ℕ
  pub unk3 : ℕ

abbrev unk6 : ℕ → ℕ → ℕ → ℕ → RegUnk6
unk6 key unk1 unk2 unk3 = record { key = key; unk1 = unk1; unk2 = unk2; unk3 = unk3 }

abbrev pub unk_entries1 : List RegUnk6
unk_entries1 = unk6 0x141E0500 0 1 1 ∷ unk6 0x0B060000 0 1 2 ∷ unk6 0x0B070000 0 1 2 ∷ []

-- The loop over the keys of one such entry, from number `i` on.
unfoldable pub is_unk_key : ℕ → ℕ → RegUnk6 → ℕ → Flow Bool
is_unk_key zero i e key = done false
is_unk_key (suc n) i e key =
    if leb 32 (bit_and e.unk1 0xff)
    then panic overflow
    else (add32 (shl32 i (bit_and e.unk1 0xff)) e.key >>= λ k. elim (k == key) [
      | true ↦ done true
      | false ↦ is_unk_key n (suc i) e key
    ])

-- The loop `'l1`: whether `set_value` returns in it.
unfoldable pub is_ignored : List RegUnk6 → ℕ → Flow Bool
is_ignored [] key = done false
is_ignored (e ∷ es) key = is_unk_key e.unk2 0 e key >>= λ found. elim found [
  | true ↦ done (not (bit_and e.unk3 1 == 0))
  | false ↦ is_ignored es key
]

-- Whether a byte of `value` differs from that of the buffer of four.
unfoldable pub differs : List ℕ → List ℕ → Bool
differs buf [] = false
differs [] (v ∷ vs) = true
differs (b ∷ bs) (v ∷ vs) = not (b == v) || differs bs vs

-- `set_value`, for at most four bytes.
unfoldable pub set_value : ℕ → List ℕ → Flow (Result ℕ RegError)
set_value key value = is_ignored unk_entries1 key >>= λ ignored. elim ignored [
  | true ↦ done (ok 0)
  | false ↦ lookup key >>= λ found. elim found [
    | none ↦ done (err (not_found key))
    | some entry ↦
        if ltb entry.len (length value)
        then done (err v800d0208)
        else if ltb entry.len 5
        then (and_then_ok (get_value key (replicate entry.len 0)) λ buf.
            if entry.unk4 == 1
            then panic unfinished
            else if differs (buf ++ replicate (4 - entry.len) 0) value
            then panic unfinished
            else done (ok 0))
        else panic unfinished
  ]
]

unfoldable pub set_int : ℕ → ℕ → Flow (Result ℕ RegError)
set_int key value = check_param key 0 4 >>= λ checked. elim checked [
  | some e ↦ panic unfinished
  | none ↦ set_value key (to_le_bytes value) >>= λ set. elim set [
    | ok v ↦ done (ok v)
    | err e ↦ panic unfinished
  ]
]

-- The arguments of `regmgr_call`, and the numbers at the start of the request.
pub record Request : Type 0 where
  pub op : ℕ
  pub buf : ℕ
  pub req : ℕ
  pub reqlen : ℕ
  pub v1 : ℕ
  pub v2 : ℕ
  pub value : ℕ

-- The result of an operation, as it is written to `buf`.
abbrev pub written : Result ℕ RegError → ℕ
written (ok v) = v
written (err e) = code e

-- `sys_regmgr_call`: what is written to `buf`. The call itself returns 0.
unfoldable pub sys_regmgr_call : Cred → Request → Flow ℕ
sys_regmgr_call cred r =
    if leb (2 ^ 32) r.op
    then panic unwrap_none
    else if r.buf == 0 || r.req == 0 || ltb 2048 r.reqlen
    then panic unfinished
    else (if r.op == 0x18
        then (and_then_ok (decode_key r.v1 r.v2 cred 2) λ k. set_int k r.value)
        else if r.op == 0x19
        then (and_then_ok (decode_key r.v1 r.v2 cred 1) λ k. panic unfinished)
        else if r.op == 0x27 || leb 0x40 r.op
        then done (err v800d0219)
        else panic unfinished)
      >>= λ res. done (written res)

-- The keys that `workaround8849` answers.
unfoldable pub is_debug_key : ℕ → Bool
is_debug_key key =
    key == 0x19810000
    || key == 0x3CC80700
    || key == 0x78026400
    || key == 0x78028300
    || key == 0x78028A00

-- `sys_workaround8849`; the error is `EINVAL`.
unfoldable pub sys_workaround8849 : ℕ → Flow (Result ℕ ℕ)
sys_workaround8849 arg =
    if leb (2 ^ 32) arg
    then panic unwrap_none
    else if is_debug_key arg
    then (get_int arg >>= λ out. done (ok 0))
    else done (err 22)
