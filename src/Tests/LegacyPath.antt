-- ===== src/Tests/LegacyPath.antt =====
-- The paths of the virtual file system, on `/a/b.c` and the like.
use obliteration.Prelude.{
  ℕ, ◌≡◌, ◌↔◌, refl, true, false, some, List, [], ◌∷◌, ◌++◌, ◌⊎◌, ok, err, done, if◌then◌else◌,
}
use obliteration.Legacy.Path.{
  eqb, contains, find, rfind, starts_with, ends_with, path_contains, is_refused, check_components,
  is_valid, slash, dot, push, parent, file_name, next, collect, components, set_extension, invalid,
}
use obliteration.Legacy.Path.Names.{is_name, AllNames, path_of, render}
use obliteration.Legacy.Path.Valid.{IsLast, is_valid_iff}
use obliteration.Legacy.Path.Refine.{push_refines, parent_refines, components_refine, fault}
use obliteration.Legacy.Path.Extension.{
  set_extension_renames, set_extension_cuts, set_extension_added, suffix,
}
use obliteration.Legacy.Path.Contains.{path_contains_iff}

-- The names `a` and `b.c`, and the extension `d`.
abbrev name_a : List ℕ
name_a = b'a' ∷ []

abbrev name_b : List ℕ
name_b = b'b' ∷ dot ∷ b'c' ∷ []

abbrev ext_d : List ℕ
ext_d = b'd' ∷ []

abbrev two : List (List ℕ)
two = name_a ∷ name_b ∷ []

is_name_a : is_name name_a ≡ true
unfolding is_name is_refused eqb contains
is_name_a = refl

is_name_b : is_name name_b ≡ true
unfolding is_name is_refused eqb contains
is_name_b = refl

-- The last component is not looked at: `/a/..` is accepted.
accepts_dots : is_valid (path_of (name_a ∷ (dot ∷ dot ∷ []) ∷ [])) ≡ true
unfolding is_valid check_components is_refused eqb starts_with ends_with
accepts_dots = refl

-- The root is refused, though `VPathBuf::new` makes it.
refuses_root : is_valid (path_of []) ≡ false
unfolding is_valid eqb starts_with ends_with
refuses_root = refl

-- Without its extension `/.b` is the root, and `/a/.b` ends in a separator.
removes_name :
    set_extension (path_of (name_a ∷ (dot ∷ b'b' ∷ []) ∷ [])) [] ≡ ok (slash ∷ b'a' ∷ slash ∷ [])
unfolding set_extension contains eqb rfind
removes_name = refl

walks : components (path_of two) ≡ two
unfolding components collect next find
walks = refl

push_refines_example :
    push (path_of (name_a ∷ [])) name_b
    ≡ (if is_name name_b then ok (path_of two) else err (fault name_b))
push_refines_example = push_refines (name_a ∷ []) name_b (is_name_a, tt)

parent_refines_example :
    (parent (path_of two) ≡ done (some (path_of (name_a ∷ []))))
    × (file_name (path_of two) ≡ done (some name_b))
parent_refines_example = parent_refines (name_a ∷ []) name_b (is_name_a, tt) is_name_b

components_refine_example : components (path_of two) ≡ two
components_refine_example = components_refine two (is_name_a, (is_name_b, tt))

is_valid_iff_example : (is_valid (path_of two) ≡ true) ↔ (
    (cs : List (List ℕ)) × (c : List ℕ) × (path_of two ≡ render (cs ++ c ∷ []))
    × AllNames cs
    × IsLast c)
is_valid_iff_example = is_valid_iff (path_of two)

path_contains_iff_example : (path_contains (path_of two) (path_of (name_a ∷ [])) ≡ true) ↔ (
    (path_of two ≡ path_of (name_a ∷ []))
    ⊎ ((rest : List ℕ) × (path_of two ≡ path_of (name_a ∷ []) ++ slash ∷ rest)))
path_contains_iff_example = path_contains_iff (path_of two) (path_of (name_a ∷ []))

set_extension_renames_example : set_extension (path_of two) ext_d ≡ (
    if contains ext_d slash
    then err invalid
    else ok (path_of (name_a ∷ (b'b' ∷ suffix ext_d) ∷ [])))
set_extension_renames_example =
    set_extension_renames (name_a ∷ []) (b'b' ∷ []) (b'c' ∷ []) ext_d (unfold contains in refl)

set_extension_cuts_example :
    set_extension (path_of (name_b ∷ name_a ∷ [])) ext_d
    ≡ (if contains ext_d slash then err invalid else ok (path_of ((b'b' ∷ suffix ext_d) ∷ [])))
set_extension_cuts_example =
    set_extension_cuts [] (b'b' ∷ []) (b'c' ∷ []) name_a ext_d (unfold contains in refl)
      (unfold contains in refl)

adds_extension :
    set_extension (path_of (name_a ∷ [])) ext_d
    ≡ (if contains ext_d slash then err invalid else ok (path_of (name_a ∷ []) ++ suffix ext_d))
adds_extension = set_extension_added slash b'a' [] ext_d (unfold contains in refl)
