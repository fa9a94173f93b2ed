-- ===== src/Legacy/Path/Bytes.antt =====
-- Searching and comparing texts.
use obliteration.Prelude.{
  ℕ, ◌≡◌, refl, true, false, ◌||◌, none, some, List, [], ◌∷◌, ◌++◌, arith, length,
}
use obliteration.Legacy.Path.{eqb, contains, find, rfind, ends_with}

pub eqb_refl : (xs : List ℕ) → eqb xs xs ≡ true
unfolding eqb
eqb_refl [] = refl
eqb_refl (x ∷ xs) = ground (arith, eqb_refl xs)

pub eq_of_eqb : (xs ys : List ℕ) → eqb xs ys ≡ true → xs ≡ ys
unfolding eqb
eq_of_eqb [] [] h = refl
eq_of_eqb [] (y ∷ ys) h = cc
eq_of_eqb (x ∷ xs) [] h = cc
eq_of_eqb (x ∷ xs) (y ∷ ys) h = ground (arith, eq_of_eqb xs ys)

-- A text with no such byte in front of a text that begins with one.
pub find-here :
    (xs : List ℕ) (b : ℕ) (rest : List ℕ)
    → contains xs b ≡ false
    → find (xs ++ b ∷ rest) b ≡ some (length xs)
unfolding find contains
find-here [] b rest h = ground arith
find-here (x ∷ xs) b rest h = ground (arith, find-here xs b rest)

pub find-absent : (xs : List ℕ) (b : ℕ) → contains xs b ≡ false → find xs b ≡ none
unfolding find contains
find-absent [] b h = refl
find-absent (x ∷ xs) b h = ground (arith, find-absent xs b)

pub rfind-absent : (xs : List ℕ) (b : ℕ) → contains xs b ≡ false → rfind xs b ≡ none
unfolding rfind contains
rfind-absent [] b h = refl
rfind-absent (x ∷ xs) b h = ground (arith, rfind-absent xs b)

-- The last such byte is the one behind which there is none.
pub rfind-here :
    (xs : List ℕ) (b : ℕ) (rest : List ℕ)
    → contains rest b ≡ false
    → rfind (xs ++ b ∷ rest) b ≡ some (length xs)
unfolding rfind
rfind-here [] b rest h = ground (arith, rfind-absent rest b)
rfind-here (x ∷ xs) b rest h = ground (arith, rfind-here xs b rest)

pub contains-append :
    (xs ys : List ℕ) (b : ℕ) → contains (xs ++ ys) b ≡ (contains xs b || contains ys b)
unfolding contains
contains-append [] ys b = refl
contains-append (x ∷ xs) ys b = ground (arith, contains-append xs ys b)

-- A text ends as what stands at its end.
pub ends_with-append :
    (xs : List ℕ) (y : ℕ) (ys : List ℕ) (b : ℕ) → ends_with (xs ++ y ∷ ys) b ≡ ends_with (y ∷ ys) b
unfolding ends_with
ends_with-append [] y ys b = refl
ends_with-append (x ∷ []) y ys b = refl
ends_with-append (x ∷ z ∷ xs) y ys b = ends_with-append (z ∷ xs) y ys b

pub ends_with-absent : (xs : List ℕ) (b : ℕ) → contains xs b ≡ false → ends_with xs b ≡ false
unfolding ends_with contains
ends_with-absent [] b h = refl
ends_with-absent (x ∷ []) b h = ground arith
ends_with-absent (x ∷ y ∷ xs) b h = ground (arith, ends_with-absent (y ∷ xs) b)
