-- ===== src/Legacy/Path/Names.antt =====
-- The abstract view of a path: the list of its names, from the root down.
use obliteration.Prelude.{
  ℕ, ◌≡◌, ◌<◌, refl, sym, ap, ◌∙◌, Bool, true, false, not, ◌&&◌, List, [], ◌∷◌, ◌++◌, append_assoc,
  append-nil, arith, length,
}
use obliteration.Legacy.Path.{eqb, contains, is_refused, slash}

-- What a component may be called.
unfoldable pub is_name : List ℕ → Bool
is_name c = not (is_refused c) && not (contains c slash)

abbrev pub AllNames : List (List ℕ) → Type 0
AllNames [] = Unit {0}
AllNames (c ∷ cs) = (is_name c ≡ true) × AllNames cs

abbrev pub render : List (List ℕ) → List ℕ
render [] = []
render (c ∷ cs) = slash ∷ (c ++ render cs)

-- The text of a path: that of the root is a lone separator.
abbrev pub path_of : List (List ℕ) → List ℕ
path_of [] = slash ∷ []
path_of (c ∷ cs) = render (c ∷ cs)

pub no_slash : (c : List ℕ) → is_name c ≡ true → contains c slash ≡ false
unfolding is_name
no_slash c h = ground arith

pub not_refused : (c : List ℕ) → is_name c ≡ true → is_refused c ≡ false
unfolding is_name
not_refused c h = ground arith

pub name_length : (c : List ℕ) → is_name c ≡ true → 0 < length c
unfolding is_name is_refused eqb
name_length [] h = cc
name_length (x ∷ xs) h = omega arith

pub render-append : (xs ys : List (List ℕ)) → render (xs ++ ys) ≡ render xs ++ render ys
render-append [] ys = refl
render-append (x ∷ xs) ys =
    ap (λ l. slash ∷ l)
      (ap (λ l. x ++ l) (render-append xs ys) ∙ sym (append_assoc x (render xs) (render ys)))

-- The text of a path with one more name.
pub path_of-snoc :
    (cs : List (List ℕ)) (c : List ℕ) → path_of (cs ++ c ∷ []) ≡ render cs ++ slash ∷ c
path_of-snoc [] c = ap (λ l. slash ∷ l) (append-nil c)
path_of-snoc (d ∷ cs) c =
    render-append (d ∷ cs) (c ∷ []) ∙ ap (λ l. render (d ∷ cs) ++ slash ∷ l) (append-nil c)
