-- ===== src/Config/Env.antt =====
-- The environment variables of config/src/lib.rs: one array of bytes that `extend_env` writes and
-- `EnvIter` reads. A text is the list of its bytes.
pub mod Encode
pub mod RoundTrip
use obliteration.Prelude.{
  ℕ, zero, suc, ◌+◌, Bool, true, false, Option, none, some, List, [], ◌∷◌, ◌++◌, ◌==◌, leb,
  if◌then◌else◌, length, take, drop, replicate, Flow, done, panic, ◌>>=◌, unwrap_none, stalled,
}

-- A key and a value.
abbrev pub Var : Type 0
Var = List ℕ × List ℕ

-- `Config::ENV_END` and `Config::END_SEP`, which are no bytes of UTF-8.
abbrev pub env_end : ℕ
env_end = 0xF8

abbrev pub end_sep : ℕ
end_sep = 0xF9

-- `iter().position(|&b| b == at)`.
unfoldable pub position : List ℕ → ℕ → Option ℕ
position [] b = none
position (x ∷ xs) b =
    if x == b then some 0 else elim (position xs b) [ none ↦ none | some i ↦ some (i + 1) ]

-- `if let Some(v) = space.first_mut() { *v = ENV_END }`.
unfoldable pub terminate : List ℕ → List ℕ
terminate [] = []
terminate (x ∷ xs) = env_end ∷ xs

-- `l`: the key, the separator, the value and the end.
abbrev pub entry_size : Var → ℕ
entry_size e = length e.0 + 1 + length e.1 + 1

-- The loop of `extend_env`: the space as it leaves it, and the variables that have not been written.
unfoldable pub write_entries : List Var → List ℕ → List ℕ × List Var
write_entries [] space = (space, [])
write_entries (e ∷ vars) space =
    let more = write_entries vars (terminate (drop (entry_size e) space)) in
    if leb (entry_size e) (length space)
    then (e.0 ++ end_sep ∷ (e.1 ++ env_end ∷ more.0), more.1)
    else (space, e ∷ vars)

unfoldable pub extend_env : List ℕ → List Var → Flow (List ℕ × List Var)
extend_env env_vars vars = elim (position env_vars env_end) [
  | none ↦ panic unwrap_none
  | some end ↦
      let begin = if end == 0 then 0 else end + 1 in
      let written = write_entries vars (drop begin env_vars) in
      done (take begin env_vars ++ written.0, written.1)
]

-- `Config::default` starts with this array, and `clear_env` fills the array so.
abbrev pub cleared : ℕ → List ℕ
cleared n = replicate n env_end

-- `utf8` says whether `from_utf8` takes the bytes.
module _ (utf8 : List ℕ → Bool) where
  abbrev checked : List ℕ → Flow (List ℕ)
  checked s = if utf8 s then done s else panic unwrap_none

  -- The entry up to its end, split at the separator.
  unfoldable pub split_entry : List ℕ → Flow Var
  split_entry v = elim (position v end_sep) [
    | none ↦ panic unwrap_none
    | some i ↦
        checked (take i v) >>= λ key. checked (drop 1 (drop i v)) >>= λ value. done (key, value)
  ]

  -- `EnvIter::next`: the variable and what remains.
  unfoldable pub next_entry : List ℕ → Flow (Option (Var × List ℕ))
  next_entry [] = done none
  next_entry (x ∷ xs) = elim (position (x ∷ xs) env_end) [
    | none ↦ panic unwrap_none
    | some i ↦
        if i == 0
        then done none
        else split_entry (take i (x ∷ xs)) >>= λ e. done (some (e, drop 1 (drop i (x ∷ xs))))
  ]

  -- All variables within so many calls of `next`.
  unfoldable pub collect_env : ℕ → List ℕ → Flow (List Var)
  collect_env zero rem = panic stalled
  collect_env (suc calls) rem = next_entry rem >>= λ found. elim found [
    | none ↦ done []
    | some e ↦ collect_env calls e.1 >>= λ more. done (e.0 ∷ more)
  ]

  -- `Config::env`, read to the end. Each variable takes a byte at least.
  unfoldable pub env : List ℕ → Flow (List Var)
  env env_vars = collect_env (length env_vars + 1) env_vars
