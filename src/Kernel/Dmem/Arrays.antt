-- ===== src/Kernel/Dmem/Arrays.antt =====
-- The array moves of `reserve_phys`, on an array that is cut where the block stands.
use obliteration.Prelude.{
  ℕ, suc, ◌+◌, ◌-◌, ◌≡◌, ap, ◌∙◌, ◌≤◌, ◌<◌, List, [], ◌∷◌, ◌++◌, append_assoc, arith, leb, ltb,
  le→leb, lt→ltb, length, set, take, drop, length-append, done, true,
}
use obliteration.Prelude.Segments.{
  take-append, drop-append, set-append, get_elem?-append, take_all, take_whole, drop_all, drop-drop,
}
use obliteration.Prelude.Segments
use obliteration.Kernel.Dmem.{copy_within, store}

-- The call with a count of entries in place of the range's end.
copy_within_inside :
    (xs : List ℕ) (lo n dest : ℕ)
    → lo + n ≤ length xs
    → dest + n ≤ length xs
    → copy_within xs lo (lo + n) dest
      ≡ done (take dest xs ++ (take n (drop lo xs) ++ drop (dest + n) xs))
unfolding copy_within
copy_within_inside xs lo n dest h k =
    let count : lo + n - lo ≡ n = omega arith in
    let below : leb lo (lo + n) ≡ true = le→leb lo (lo + n) (omega arith) in
    let inside : leb (lo + n) (length xs) ≡ true = le→leb (lo + n) (length xs) h in
    rw (count, below, inside, le→leb (dest + n) (length xs) k)

module _ (p : List ℕ) where
  -- The entries behind a removed pair move down over it.
  pub copy_within-down :
      (s e : ℕ) (r : List ℕ)
      → copy_within (p ++ s ∷ e ∷ r) (length p + 2) (length p + 2 + length r) (length p)
        ≡ done (p ++ (r ++ drop (length r) (s ∷ e ∷ r)))
  copy_within-down s e r =
      copy_within_inside (p ++ s ∷ e ∷ r) (length p + 2) (length r) (length p) inside inside'
      ∙ ap done pieces
    where
      inside : length p + 2 + length r ≤ length (p ++ s ∷ e ∷ r)
      inside = omega (arith, length-append p (s ∷ e ∷ r))

      inside' : length p + length r ≤ length (p ++ s ∷ e ∷ r)
      inside' = omega (arith, length-append p (s ∷ e ∷ r))

      pieces :
          take (length p) (p ++ s ∷ e ∷ r)
            ++ (take (length r) (drop (length p + 2) (p ++ s ∷ e ∷ r))
                ++ drop (length p + length r) (p ++ s ∷ e ∷ r))
          ≡ p ++ (r ++ drop (length r) (s ∷ e ∷ r))
      pieces = rw (take_all, drop-append, drop-append, Segments.take_whole)

  -- A block and what follows it move up by a pair, and leave a copy of the block behind.
  pub copy_within-up :
      (s e : ℕ) (m : List ℕ) (x y : ℕ) (r : List ℕ)
      → copy_within
          (p ++ s ∷ e ∷ (m ++ x ∷ y ∷ r))
          (length p)
          (length p + suc (suc (length m)))
          (length p + 2)
        ≡ done (p ++ s ∷ e ∷ s ∷ e ∷ (m ++ r))
  copy_within-up s e m x y r =
      copy_within_inside (p ++ s ∷ e ∷ (m ++ x ∷ y ∷ r)) (length p) (suc (suc (length m)))
        (length p + 2) (omega (arith, sizes)) (omega (arith, sizes))
      ∙ ap done pieces
    where
      sizes : length (p ++ s ∷ e ∷ (m ++ x ∷ y ∷ r)) ≡ length p + (length m + (length r + 2) + 2)
      sizes = omega (arith, length-append p (s ∷ e ∷ (m ++ x ∷ y ∷ r)), length-append m (x ∷ y ∷ r))

      behind : length p + 2 + suc (suc (length m)) ≡ length p + suc (suc (length m + 2))
      behind = omega arith

      pieces :
          take (length p + 2) (p ++ s ∷ e ∷ (m ++ x ∷ y ∷ r))
            ++ (take (suc (suc (length m))) (drop (length p) (p ++ s ∷ e ∷ (m ++ x ∷ y ∷ r)))
                ++ drop (length p + 2 + suc (suc (length m))) (p ++ s ∷ e ∷ (m ++ x ∷ y ∷ r)))
          ≡ p ++ s ∷ e ∷ s ∷ e ∷ (m ++ r)
      pieces =
          rw (behind, take-append, drop_all, drop-append, take_all)
            (rw (drop-append m (x ∷ y ∷ r) 2) (append_assoc p (s ∷ e ∷ []) (s ∷ e ∷ (m ++ r))))

  pub store-append :
      (xs : List ℕ) (n v : ℕ)
      → n < length xs
      → store (p ++ xs) (length p + n) v ≡ done (p ++ set xs n v)
  unfolding store
  store-append xs n v h =
      let inside : ltb (length p + n) (length (p ++ xs)) ≡ true =
        lt→ltb (length p + n) (length (p ++ xs)) (omega (arith, length-append p xs)) in
      rw (inside, set-append p xs n v)
