-- ===== src/Legacy/Path.antt =====
-- legacy/src/fs/path.rs: `path_contains`, the paths `VPath` and `VPathBuf`, and the iterator over
-- the components. A text is the list of its bytes.
pub mod Bytes
pub mod Names
pub mod Refine
pub mod Valid
pub mod Extension
pub mod Contains
use obliteration.Prelude.{
  ℕ, zero, suc, ◌+◌, Bool, true, false, not, ◌&&◌, ◌||◌, Option, none, some, List, [], ◌∷◌, ◌++◌,
  ◌==◌, ltb, if◌then◌else◌, length, take, drop, Result, ok, err, Flow, done, panic, unwrap_none,
}

abbrev pub slash : ℕ
slash = b'/'

abbrev pub dot : ℕ
dot = b'.'

-- The comparison of two texts.
unfoldable pub eqb : List ℕ → List ℕ → Bool
eqb [] [] = true
eqb [] (y ∷ ys) = false
eqb (x ∷ xs) [] = false
eqb (x ∷ xs) (y ∷ ys) = x == y && eqb xs ys

-- `str::contains` of a byte.
unfoldable pub contains : List ℕ → ℕ → Bool
contains [] b = false
contains (x ∷ xs) b = x == b || contains xs b

-- `str::find` of a byte.
unfoldable pub find : List ℕ → ℕ → Option ℕ
find [] b = none
find (x ∷ xs) b =
    if x == b then some 0 else elim (find xs b) [ none ↦ none | some i ↦ some (i + 1) ]

-- `str::rfind` of a byte.
unfoldable pub rfind : List ℕ → ℕ → Option ℕ
rfind [] b = none
rfind (x ∷ xs) b = elim (rfind xs b) [
  | some i ↦ some (i + 1)
  | none ↦ if x == b then some 0 else none
]

unfoldable pub starts_with : List ℕ → ℕ → Bool
starts_with [] b = false
starts_with (x ∷ xs) b = x == b

unfoldable pub ends_with : List ℕ → ℕ → Bool
ends_with [] b = false
ends_with (x ∷ []) b = x == b
ends_with (x ∷ y ∷ ys) b = ends_with (y ∷ ys) b

unfoldable pub path_contains : List ℕ → List ℕ → Bool
path_contains [] [] = true
path_contains [] (y ∷ ys) = false
path_contains (x ∷ xs) [] = x == slash
path_contains (x ∷ xs) (y ∷ ys) = x == y && path_contains xs ys

-- `part.is_empty() || part == "." || part == ".."`.
unfoldable pub is_refused : List ℕ → Bool
is_refused part = eqb part [] || eqb part (dot ∷ []) || eqb part (dot ∷ dot ∷ [])

-- The loop of `is_valid` behind the first byte; `part` is `data[(sep + 1)..i]`.
unfoldable pub check_components : List ℕ → List ℕ → Bool
check_components [] part = true
check_components (ch ∷ rest) part =
    let onward = check_components rest (if ch == slash then [] else part ++ ch ∷ []) in
    if ch == slash && is_refused part then false else onward

unfoldable pub is_valid : List ℕ → Bool
is_valid text =
    if eqb text [] || not (starts_with text slash) || ends_with text slash
    then false
    else check_components (drop 1 text) []

-- `VPath::parent`. A text without a separator is no path, and its `unwrap` panics.
unfoldable pub parent : List ℕ → Flow (Option (List ℕ))
parent p = if length p == 1 then done none else elim (rfind p slash) [
  | none ↦ panic unwrap_none
  | some end ↦ done (some (if end == 0 then slash ∷ [] else take end p))
]

unfoldable pub file_name : List ℕ → Flow (Option (List ℕ))
file_name p = if length p == 1 then done none else elim (rfind p slash) [
  | none ↦ panic unwrap_none
  | some sep ↦ done (some (drop (sep + 1) p))
]

-- `Components::next`: a component and what is left.
unfoldable pub next : List ℕ → Option (List ℕ × List ℕ)
next [] = none
next (x ∷ xs) = elim (find (x ∷ xs) slash) [
  | none ↦ some (x ∷ xs, [])
  | some end ↦ some (take end (x ∷ xs), drop (end + 1) (x ∷ xs))
]

-- All that `next` yields within so many calls.
unfoldable pub collect : ℕ → List ℕ → List (List ℕ)
collect zero rest = []
collect (suc calls) rest = elim (next rest) [
  | none ↦ []
  | some found ↦ found.0 ∷ collect calls found.1
]

-- The components of a path. Each call of `next` shortens the text.
unfoldable pub components : List ℕ → List (List ℕ)
components p = collect (length p) (drop 1 p)

pub data ComponentError : Type 0 where
  empty forbidden has_path_separator : ComponentError

-- `VPathBuf::push`, which `join` calls on a copy.
unfoldable pub push : List ℕ → List ℕ → Result (List ℕ) ComponentError
push p component =
    if eqb component []
    then err empty
    else if eqb component (dot ∷ []) || eqb component (dot ∷ dot ∷ [])
    then err forbidden
    else if contains component slash
    then err has_path_separator
    else ok ((if length p == 1 then p else p ++ slash ∷ []) ++ component)

pub data SetExtensionError : Type 0 where
  invalid path_is_root : SetExtensionError

unfoldable pub set_extension : List ℕ → List ℕ → Result (List ℕ) SetExtensionError
set_extension p ext =
    if contains ext slash
    then err invalid
    else if length p == 1
    then err path_is_root
    else let i : ℕ = elim (rfind p dot) [
      | none ↦ length p
      | some v ↦ if ltb 0 v then v else length p
    ] in
      ok (if eqb ext [] then take i p else take i p ++ dot ∷ ext)
