-- ===== src/Legacy/FileDesc.antt =====
-- legacy/src/process/filedesc.rs: the table of open files of a process. The tables of one process
-- stand under one lock, so a call sees the table that the last call left. Of a file only its flags
-- matter here: the functions take them as `flags_of`.
pub mod Table
pub mod Laws
use obliteration.Prelude.{
  ℕ, zero, suc, ◌+◌, ◌-◌, ◌^◌, Bool, true, false, not, ◌&&◌, ◌||◌, Option, none, some, List, [],
  ◌∷◌, ◌++◌, ◌==◌, ltb, leb, if◌then◌else◌, length, get_elem?, set, bit_and, Result, ok, err, Flow,
  done, panic, explicit, ℤ, pos, negsuc,
}

-- `i32::MAX`.
abbrev pub max_fd : ℕ
max_fd = 0x7FFFFFFF

-- `VFileFlags::READ` and `VFileFlags::WRITE`.
abbrev pub read_flag : ℕ
read_flag = 1

abbrev pub write_flag : ℕ
write_flag = 2

-- Where the loop over `0..=i32::MAX` stops: at the first slot from `i` on that is free, or behind the
-- last. `none`: the range is used up.
unfoldable pub free_slot : {A : Type 0} → ℕ → List (Option A) → Option ℕ
free_slot i [] = if leb i max_fd then some i else none
free_slot i (none ∷ files) = if leb i max_fd then some i else none
free_slot i (some file ∷ files) =
    let later = free_slot (i + 1) files in if leb i max_fd then later else none

-- `push` behind the last slot, or a write into the slot.
unfoldable pub install : {A : Type 0} → List (Option A) → ℕ → A → List (Option A)
install files i file =
    if i == length files then files ++ some file ∷ [] else set files i (some file)

unfoldable pub alloc : {A : Type 0} → List (Option A) → A → Flow (ℕ × List (Option A))
alloc files file = elim (free_slot 0 files) [
  | none ↦ panic explicit
  | some i ↦ done (i, install files i file)
]

-- `alloc_without_budget`: the constructor learns the descriptor, and may fail.
unfoldable pub alloc_without_budget :
    {A E : Type 0} → List (Option A) → (ℕ → Result A E) → Flow (Result ℕ E × List (Option A))
alloc_without_budget files constructor = elim (free_slot 0 files) [
  | none ↦ panic explicit
  | some i ↦ elim (constructor i) [
    | err e ↦ done (err e, files)
    | ok file ↦ done (ok i, install files i file)
  ]
]

pub data GetFileError : Type 0 where
  negative_fd fd_out_of_range no_file : GetFileError
  bad_flags : ℕ → ℕ → GetFileError

-- Whether a file with the flags `has` may not be used for `flags`: for `READ` and `WRITE` it must
-- have the flag, and nothing else is asked.
unfoldable pub lacks : ℕ → ℕ → Bool
lacks flags has = (flags == write_flag || flags == read_flag) && bit_and has flags == 0

unfoldable pub get_internal :
    {A : Type 0} → (A → ℕ) → List (Option A) → ℤ → ℕ → Result A GetFileError
get_internal flags_of files (negsuc n) flags = err negative_fd
get_internal flags_of files (pos fd) flags = elim (get_elem? files fd) [
  | none ↦ err fd_out_of_range
  | some none ↦ err no_file
  | some (some file) ↦
      if lacks flags (flags_of file) then err (bad_flags flags (flags_of file)) else ok file
]

unfoldable pub get : {A : Type 0} → (A → ℕ) → List (Option A) → ℤ → Result A GetFileError
get flags_of files fd = get_internal flags_of files fd 0

unfoldable pub get_for_write : {A : Type 0} → (A → ℕ) → List (Option A) → ℤ → Result A GetFileError
get_for_write flags_of files fd = get_internal flags_of files fd write_flag

unfoldable pub get_for_read : {A : Type 0} → (A → ℕ) → List (Option A) → ℤ → Result A GetFileError
get_for_read flags_of files fd = get_internal flags_of files fd read_flag

pub data FreeError : Type 0 where
  negative no_slot : FreeError

-- `free`: `no_slot` is the source's `NoFile`.
unfoldable pub free : {A : Type 0} → List (Option A) → ℤ → Result (List (Option A)) FreeError
free files (negsuc n) = err negative
free files (pos fd) = if ltb fd (length files) then ok (set files fd none) else err no_slot
