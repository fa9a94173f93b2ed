-- ===== src/Prelude/Segments.antt =====
-- Reading and writing a list behind a known prefix.
use Prim.Native.Nat.{ℕ, zero, suc, ◌+◌}
use mathlib.Core.Path.{◌≡◌, refl, ap}
use mathlib.Core.List.{List, [], ◌∷◌, ◌++◌}
use native.Mathlib.Nat.{zero-add, suc-add}
use obliteration.Prelude.Lists.{length, take, drop, set, get_elem?}

module _ {ℓ} {A : Type ℓ} where
  pub take-append : (p xs : List A) (n : ℕ) → take (length p + n) (p ++ xs) ≡ p ++ take n xs
  take-append [] xs n = rw zero-add
  take-append (x ∷ p) xs n = rw suc-add (ap (λ l. x ∷ l) (take-append p xs n))

  pub drop-append : (p xs : List A) (n : ℕ) → drop (length p + n) (p ++ xs) ≡ drop n xs
  drop-append [] xs n = rw zero-add
  drop-append (x ∷ p) xs n = rw suc-add (drop-append p xs n)

  pub set-append :
      (p xs : List A) (n : ℕ) (v : A) → set (p ++ xs) (length p + n) v ≡ p ++ set xs n v
  set-append [] xs n v = rw zero-add
  set-append (x ∷ p) xs n v = rw suc-add (ap (λ l. x ∷ l) (set-append p xs n v))

  pub get_elem?-append :
      (p xs : List A) (n : ℕ) → get_elem? (p ++ xs) (length p + n) ≡ get_elem? xs n
  get_elem?-append [] xs n = rw zero-add
  get_elem?-append (x ∷ p) xs n = rw suc-add (get_elem?-append p xs n)

  pub take_all : (xs ys : List A) → take (length xs) (xs ++ ys) ≡ xs
  take_all [] ys = refl
  take_all (x ∷ xs) ys = ap (λ l. x ∷ l) (take_all xs ys)

  pub take_whole : (xs : List A) → take (length xs) xs ≡ xs
  take_whole [] = refl
  take_whole (x ∷ xs) = ap (λ l. x ∷ l) (take_whole xs)

  pub drop_all : (xs ys : List A) → drop (length xs) (xs ++ ys) ≡ ys
  drop_all [] ys = refl
  drop_all (x ∷ xs) ys = drop_all xs ys

  pub drop-drop : (m n : ℕ) (xs : List A) → drop (m + n) xs ≡ drop n (drop m xs)
  drop-drop zero n xs = rw zero-add
  drop-drop (suc m) zero [] = rw suc-add
  drop-drop (suc m) (suc n) [] = rw suc-add
  drop-drop (suc m) n (x ∷ xs) = rw suc-add (drop-drop m n xs)
