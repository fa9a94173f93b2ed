-- ===== src/Legacy/Path/Extension.antt =====
-- What `set_extension` does to the last name of a path.
use obliteration.Prelude.{
  ℕ, ◌≡◌, ◌≢◌, refl, sym, ap, ◌∙◌, false, List, [], ◌∷◌, ◌++◌, append_assoc, append-nil, arith,
  if◌then◌else◌, length-append, ok, err,
}
use obliteration.Prelude.Segments.{take_all, take_whole}
use obliteration.Legacy.Path.{eqb, contains, slash, dot, set_extension, invalid}
use obliteration.Legacy.Path.Bytes.{rfind-here, rfind-absent, contains-append}
use obliteration.Legacy.Path.Names.{path_of, render, path_of-snoc, render-append}

-- A dot and the extension, or nothing for an empty one.
abbrev pub suffix : List ℕ → List ℕ
suffix ext = if eqb ext [] then [] else dot ∷ ext

-- The extension takes the place of the text from the last dot on, wherever that dot stands.
pub set_extension_lem :
    (front old ext : List ℕ)
    → contains old dot ≡ false
    → front ≢ []
    → set_extension (front ++ dot ∷ old) ext
      ≡ (if contains ext slash then err invalid else ok (front ++ suffix ext))
unfolding set_extension eqb
set_extension_lem [] old ext h k = absurd (k refl)
set_extension_lem (x ∷ xs) old ext h k = ground (
  arith,
  rfind-here (x ∷ xs) dot old h,
  take_all (x ∷ xs) (dot ∷ old),
  append-nil (x ∷ xs),
  length-append (x ∷ xs) (dot ∷ old),
)

-- Where a path has no dot at all, `set_extension` adds a dot and the extension at its end, or
-- nothing for an empty extension; an extension with a separator is refused.
pub set_extension_added :
    (x y : ℕ) (p ext : List ℕ)
    → contains (x ∷ y ∷ p) dot ≡ false
    → set_extension (x ∷ y ∷ p) ext
      ≡ (if contains ext slash then err invalid else ok ((x ∷ y ∷ p) ++ suffix ext))
unfolding set_extension eqb
set_extension_added x y p ext h =
    ground (arith, rfind-absent (x ∷ y ∷ p) dot h, take_whole (x ∷ y ∷ p), append-nil (x ∷ y ∷ p))

snoc_some : (cs : List (List ℕ)) (c : List ℕ) → render cs ++ slash ∷ c ≢ []
snoc_some [] c h = cc
snoc_some (d ∷ cs) c h = cc

text_front :
    (cs : List (List ℕ)) (stem x : List ℕ)
    → path_of (cs ++ (stem ++ x) ∷ []) ≡ (render cs ++ slash ∷ stem) ++ x
text_front cs stem x = path_of-snoc cs (stem ++ x) ∙ sym (append_assoc (render cs) (slash ∷ stem) x)

text_two :
    (cs : List (List ℕ)) (stem x c : List ℕ)
    → path_of (cs ++ (stem ++ x) ∷ c ∷ []) ≡ (render cs ++ slash ∷ stem) ++ (x ++ slash ∷ c)
text_two [] stem x c =
    ap (λ l. slash ∷ l)
      (append_assoc stem x (slash ∷ (c ++ [])) ∙ ap (λ l. stem ++ (x ++ slash ∷ l)) (append-nil c))
text_two (d ∷ cs) stem x c =
    render-append (d ∷ cs) ((stem ++ x) ∷ c ∷ [])
    ∙ ap (λ l. render (d ∷ cs) ++ slash ∷ l)
        (append_assoc stem x (slash ∷ (c ++ []))
          ∙ ap (λ l. stem ++ (x ++ slash ∷ l)) (append-nil c))
    ∙ sym (append_assoc (render (d ∷ cs)) (slash ∷ stem) (x ++ slash ∷ c))

no_dot :
    (old c : List ℕ)
    → contains old dot ≡ false
    → contains c dot ≡ false
    → contains (old ++ slash ∷ c) dot ≡ false
unfolding contains
no_dot old c h k = ground (arith, contains-append old (slash ∷ c) dot)

-- On a path whose last name has a dot, `set_extension` replaces what stands behind the last dot of
-- that name, with an empty extension also the dot, and leaves the names in front as they are. An
-- extension with a separator is refused.
pub set_extension_renames :
    (cs : List (List ℕ)) (stem old ext : List ℕ)
    → contains old dot ≡ false
    → set_extension (path_of (cs ++ (stem ++ dot ∷ old) ∷ [])) ext
      ≡ (if contains ext slash then err invalid else ok (path_of (cs ++ (stem ++ suffix ext) ∷ [])))
set_extension_renames cs stem old ext h =
    ap (λ l. set_extension l ext) (text_front cs stem (dot ∷ old))
    ∙ set_extension_lem (render cs ++ slash ∷ stem) old ext h (snoc_some cs stem)
    ∙ ap (λ l. if contains ext slash then err invalid else ok l)
        (sym (text_front cs stem (suffix ext)))

-- On a path whose last name has no dot, while the name in front of it has one, `set_extension` does
-- not touch the last name's extension: it removes the last name, and the extension goes to the name
-- in front of it.
pub set_extension_cuts :
    (cs : List (List ℕ)) (stem old c ext : List ℕ)
    → contains old dot ≡ false
    → contains c dot ≡ false
    → set_extension (path_of (cs ++ (stem ++ dot ∷ old) ∷ c ∷ [])) ext
      ≡ (if contains ext slash then err invalid else ok (path_of (cs ++ (stem ++ suffix ext) ∷ [])))
set_extension_cuts cs stem old c ext h k =
    ap (λ l. set_extension l ext) (text_two cs stem (dot ∷ old) c)
    ∙ set_extension_lem (render cs ++ slash ∷ stem) (old ++ slash ∷ c) ext (no_dot old c h k)
        (snoc_some cs stem)
    ∙ ap (λ l. if contains ext slash then err invalid else ok l)
        (sym (text_front cs stem (suffix ext)))
