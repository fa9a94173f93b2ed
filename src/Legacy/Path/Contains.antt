-- ===== src/Legacy/Path/Contains.antt =====
-- Which paths `path_contains` takes to lie below another one.
use obliteration.Prelude.{
  ℕ, ◌≡◌, refl, ap, ◌∙◌, ◌↔◌, ◌⊎◌, true, List, [], ◌∷◌, ◌++◌, arith, ==_iff, inl, inr,
}
use obliteration.Legacy.Path.{path_contains, slash}

contains_itself : (p : List ℕ) → path_contains p p ≡ true
unfolding path_contains
contains_itself [] = refl
contains_itself (x ∷ xs) = ground (arith, contains_itself xs)

contains_below : (p rest : List ℕ) → path_contains (p ++ slash ∷ rest) p ≡ true
unfolding path_contains
contains_below [] rest = refl
contains_below (x ∷ xs) rest = ground (arith, contains_below xs rest)

same_head :
    (x y : ℕ) (xs ys : List ℕ)
    → path_contains (x ∷ xs) (y ∷ ys) ≡ true
    → (x ≡ y) × (path_contains xs ys ≡ true)
unfolding path_contains
same_head x y xs ys h = ground arith

contains_cases :
    (p q : List ℕ)
    → path_contains p q ≡ true
    → (p ≡ q) ⊎ ((rest : List ℕ) × (p ≡ q ++ slash ∷ rest))
unfolding path_contains
contains_cases [] [] h = inl refl
contains_cases [] (y ∷ ys) h = cc
contains_cases (x ∷ xs) [] h = inr (xs, ap (λ c. c ∷ xs) ((==_iff x slash).0 h))
contains_cases (x ∷ xs) (y ∷ ys) h =
    let both = same_head x y xs ys h in
    elim (contains_cases xs ys both.1) [
      | inl same ↦ inl (cc (both.0, same))
      | inr below ↦ inr (below.0, cc (both.0, below.1))
    ]

-- `path_contains p q` holds exactly when `p` is `q` or `q` with a separator and any text behind it.
pub path_contains_iff :
    (p q : List ℕ)
    → (path_contains p q ≡ true) ↔ ((p ≡ q) ⊎ ((rest : List ℕ) × (p ≡ q ++ slash ∷ rest)))
path_contains_iff p q = (
  contains_cases p q,
  λ f. elim f [
    | inl same ↦ ap (λ l. path_contains l q) same ∙ contains_itself q
    | inr below ↦ ap (λ l. path_contains l q) below.1 ∙ contains_below q below.0
  ],
)
