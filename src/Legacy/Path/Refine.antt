-- ===== src/Legacy/Path/Refine.antt =====
-- The operations of `VPath` and `VPathBuf` on the text of a path do what is meant to its names.
use obliteration.Prelude.{
  ℕ, zero, suc, ◌≡◌, ◌≤◌, refl, true, false, ◌||◌, some, List, [], ◌∷◌, ◌++◌, append_assoc,
  append-nil, arith, ◌==◌, if◌then◌else◌, length, drop, length-append, ok, err, done,
}
use obliteration.Prelude.Segments.{take_all, drop-append}
use obliteration.Legacy.Path.{
  eqb, contains, is_refused, slash, dot, push, ComponentError, empty, forbidden, has_path_separator,
  parent, file_name, next, collect, components,
}
use obliteration.Legacy.Path.Bytes.{find-here, find-absent, rfind-here}
use obliteration.Legacy.Path.Names.{
  is_name, AllNames, render, path_of, no_slash, name_length, path_of-snoc,
}

-- Which error a text that is no name gets.
abbrev pub fault : List ℕ → ComponentError
fault c =
    if eqb c []
    then empty
    else if eqb c (dot ∷ []) || eqb c (dot ∷ dot ∷ [])
    then forbidden
    else has_path_separator

long_path :
    (d : List ℕ) (cs : List (List ℕ)) → is_name d ≡ true → (length (path_of (d ∷ cs)) == 1) ≡ false
long_path d cs h = ground (arith, name_length d h, length-append d (render cs))

-- `push` adds a name at the end of the path and refuses every other text: the empty one, `.` and
-- `..`, and one with a separator, each with its own error.
pub push_refines :
    (cs : List (List ℕ)) (c : List ℕ)
    → AllNames cs
    → push (path_of cs) c ≡ (if is_name c then ok (path_of (cs ++ c ∷ [])) else err (fault c))
unfolding push is_name is_refused
push_refines [] c h = ground (arith, append-nil c)
push_refines (d ∷ cs) c h = ground (
  arith,
  long_path d cs h.0,
  path_of-snoc (d ∷ cs) c,
  append_assoc (render (d ∷ cs)) (slash ∷ []) c,
)

snoc_long :
    (cs : List (List ℕ)) (c : List ℕ)
    → is_name c ≡ true
    → (length (render cs ++ slash ∷ c) == 1) ≡ false
snoc_long cs c h = ground (arith, name_length c h, length-append (render cs) (slash ∷ c))

-- `parent` drops the last name and `file_name` returns it.
pub parent_refines :
    (cs : List (List ℕ)) (c : List ℕ)
    → AllNames cs
    → is_name c ≡ true
    → (parent (path_of (cs ++ c ∷ [])) ≡ done (some (path_of cs)))
      × (file_name (path_of (cs ++ c ∷ [])) ≡ done (some c))
unfolding parent file_name
parent_refines [] c hs h =
    ground (arith, path_of-snoc [] c, snoc_long [] c h, rfind-here [] slash c (no_slash c h))
parent_refines (d ∷ cs) c hs h = ground (
  arith,
  path_of-snoc (d ∷ cs) c,
  snoc_long (d ∷ cs) c h,
  rfind-here (render (d ∷ cs)) slash c (no_slash c h),
  take_all (render (d ∷ cs)) (slash ∷ c),
  drop-append (render (d ∷ cs)) (slash ∷ c) 1,
)

next_last :
    (x : ℕ) (xs : List ℕ) → contains (x ∷ xs) slash ≡ false → next (x ∷ xs) ≡ some (x ∷ xs, [])
unfolding next
next_last x xs h = ground (arith, find-absent (x ∷ xs) slash h)

next_more : (c rest : List ℕ) → contains c slash ≡ false → next (c ++ slash ∷ rest) ≡ some (c, rest)
unfolding next
next_more [] rest h = ground (arith, find-here [] slash rest)
next_more (x ∷ xs) rest h = ground (
  arith,
  find-here (x ∷ xs) slash rest h,
  take_all (x ∷ xs) (slash ∷ rest),
  drop-append (x ∷ xs) (slash ∷ rest) 1,
)

collect_names :
    (n : ℕ) (cs : List (List ℕ))
    → AllNames cs
    → length (render cs) ≤ n
    → collect n (drop 1 (render cs)) ≡ cs
unfolding collect
collect_names zero [] hs h = refl
collect_names (suc n) [] hs h = unfold next in refl
collect_names zero (c ∷ cs) hs h = absurd (omega arith)
collect_names (suc n) ([] ∷ []) hs h = absurd (omega (arith, name_length [] hs.0))
collect_names (suc n) ((x ∷ xs) ∷ []) hs h = ground (
  arith,
  append-nil (x ∷ xs),
  next_last x xs (no_slash (x ∷ xs) hs.0),
  collect_names n [] tt (omega arith),
)
collect_names (suc n) (c ∷ d ∷ cs) hs h = ground (
  arith,
  next_more c (d ++ render cs) (no_slash c hs.0),
  length-append c (render (d ∷ cs)),
  collect_names n (d ∷ cs) hs.1,
)

-- The iterator yields the names in order.
pub components_refine : (cs : List (List ℕ)) → AllNames cs → components (path_of cs) ≡ cs
unfolding components
components_refine [] hs = collect_names 1 [] tt (omega arith)
components_refine (c ∷ cs) hs = collect_names (length (render (c ∷ cs))) (c ∷ cs) hs (omega arith)
