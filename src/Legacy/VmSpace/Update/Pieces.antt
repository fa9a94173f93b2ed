-- ===== src/Legacy/VmSpace/Update/Pieces.antt =====
-- What changing a range should leave of an ordered list of allocations.
use obliteration.Prelude.{
  ℕ, ◌-◌, ◌≡◌, ◌<◌, ◌≤◌, refl, ap, ◌∙◌, Bool, true, false, List, [], ◌∷◌, ◌++◌, ltb, if◌then◌else◌,
  min, max, arith, Bool-cases, inl, inr,
}
use obliteration.Legacy.VmSpace.{Alloc, end_of}
use obliteration.Legacy.VmSpace.Cut.{
  Apart, head_piece, tail_piece, head_of, tail_of, head_all, head_none, tail_all, tail_none,
  alloc_eq, head_some, tail_some,
}

-- The part of an allocation in the range.
abbrev pub part_of : ℕ → ℕ → Alloc → Alloc
part_of first end a = record a {
  addr = max a.addr first;
  len = min (end_of a) end - max a.addr first;
}

-- A target `a` is cut into up to three, of which the one in the range becomes `f` of it.
module _ (filter : Alloc → Bool) (f : Alloc → Alloc) where
  abbrev pub middle_piece : ℕ → ℕ → Alloc → List Alloc
  middle_piece first end a =
      if ltb (max a.addr first) (min (end_of a) end) then f (part_of first end a) ∷ [] else []

  abbrev pub pieces : ℕ → ℕ → Alloc → List Alloc
  pieces first end a =
      if filter a
      then head_piece first a ++ (middle_piece first end a ++ tail_piece end a)
      else a ∷ []

  unfoldable pub renew : ℕ → ℕ → List Alloc → List Alloc
  renew first end [] = []
  renew first end (a ∷ rest) = pieces first end a ++ renew first end rest

  pieces_in :
      (first end : ℕ) (a : Alloc)
      → filter a ≡ true
      → pieces first end a ≡ head_piece first a ++ (middle_piece first end a ++ tail_piece end a)
  pieces_in first end a h = rw h refl

  -- An allocation outside the range stays.
  pub pieces_front :
      (first end : ℕ) (a : Alloc)
      → end_of a ≤ first
      → first ≤ end
      → 0 < a.len
      → pieces first end a ≡ a ∷ []
  pieces_front first end a h k pos = elim (Bool-cases (filter a)) [
    | inl target ↦
        let outside : ltb (max a.addr first) (min (end_of a) end) ≡ false = ground arith in
        pieces_in first end a target
        ∙ rw (head_all first a h pos, tail_none end a (omega arith), outside) refl
    | inr other ↦ rw other refl
  ]

  pub pieces_beyond :
      (first end : ℕ) (a : Alloc)
      → end ≤ a.addr
      → first ≤ end
      → 0 < a.len
      → pieces first end a ≡ a ∷ []
  pieces_beyond first end a h k pos = elim (Bool-cases (filter a)) [
    | inl target ↦
        let outside : ltb (max a.addr first) (min (end_of a) end) ≡ false = ground arith in
        pieces_in first end a target
        ∙ rw (head_none first a (omega arith), tail_all end a h pos, outside) refl
    | inr other ↦ rw other refl
  ]

  pub renew_front :
      (first end : ℕ) (a : Alloc) (rest : List Alloc)
      → end_of a ≤ first
      → first ≤ end
      → 0 < a.len
      → renew first end (a ∷ rest) ≡ a ∷ renew first end rest
  unfolding renew
  renew_front first end a rest h k pos = rw (pieces_front first end a h k pos) refl

  pub renew_beyond :
      (first end lo : ℕ) (allocs : List Alloc)
      → first ≤ end
      → end ≤ lo
      → Apart lo allocs
      → renew first end allocs ≡ allocs
  unfolding renew
  renew_beyond first end lo [] h k w = refl
  renew_beyond first end lo (a ∷ rest) h k w =
      rw (pieces_beyond first end a (omega (arith, w.0)) h w.1)
        (ap (λ l. a ∷ l) (renew_beyond first end (end_of a) rest h (omega (arith, w.0)) w.2))

  middle_is :
      (first end : ℕ) (a b : Alloc)
      → part_of first end a ≡ b
      → max a.addr first < min (end_of a) end
      → middle_piece first end a ≡ f b ∷ []
  middle_is first end a b h k =
      let inside : ltb (max a.addr first) (min (end_of a) end) ≡ true = ground (arith, k) in
      rw inside (ap (λ t. f t ∷ []) h)

  -- What a target becomes, by where it lies.
  pub renew_other :
      (first end : ℕ) (a : Alloc) (rest : List Alloc)
      → filter a ≡ false
      → renew first end (a ∷ rest) ≡ a ∷ renew first end rest
  unfolding renew
  renew_other first end a rest other = rw other refl

  module _ (first end : ℕ) (a : Alloc) (rest : List Alloc) (target : filter a ≡ true) where
    renew_target :
        (hs ms ts : List Alloc)
        → head_piece first a ≡ hs
        → middle_piece first end a ≡ ms
        → tail_piece end a ≡ ts
        → renew first end (a ∷ rest) ≡ (hs ++ (ms ++ ts)) ++ renew first end rest
    unfolding renew
    renew_target hs ms ts h m t = rw (target, h, m, t) refl

    pub renew_whole :
        first ≤ a.addr
        → end_of a ≤ end
        → 0 < a.len
        → renew first end (a ∷ rest) ≡ f a ∷ renew first end rest
    renew_whole h k pos =
        let same : part_of first end a ≡ a =
          alloc_eq _ _ (omega arith) (omega arith) refl refl refl in
        renew_target [] (f a ∷ []) [] (head_none first a h)
          (middle_is first end a a same (omega arith)) (tail_none end a k)

    pub renew_last :
        first ≤ a.addr
        → a.addr < end
        → end < end_of a
        → renew first end (a ∷ rest) ≡ f (head_of end a) ∷ tail_of end a ∷ renew first end rest
    renew_last h k l =
        let same : part_of first end a ≡ head_of end a =
          alloc_eq _ _ (omega arith) (omega arith) refl refl refl in
        renew_target [] (f (head_of end a) ∷ []) (tail_of end a ∷ []) (head_none first a h)
          (middle_is first end a (head_of end a) same (omega arith)) (tail_some end a k l)

    pub renew_first :
        a.addr < first
        → first < end_of a
        → end_of a ≤ end
        → renew first end (a ∷ rest) ≡ head_of first a ∷ f (tail_of first a) ∷ renew first end rest
    renew_first h k l =
        let same : part_of first end a ≡ tail_of first a =
          alloc_eq _ _ (omega arith) (omega arith) refl refl refl in
        renew_target (head_of first a ∷ []) (f (tail_of first a) ∷ []) [] (head_some first a h k)
          (middle_is first end a (tail_of first a) same (omega arith)) (tail_none end a l)

    pub renew_middle :
        a.addr < first
        → first < end
        → end < end_of a
        → renew first end (a ∷ rest)
          ≡ head_of first a
            ∷ f (record a { addr = first; len = end - first })
            ∷ tail_of end a
            ∷ renew first end rest
    renew_middle h k l =
        let same : part_of first end a ≡ record a { addr = first; len = end - first } =
          alloc_eq _ _ (omega arith) (omega arith) refl refl refl in
        renew_target (head_of first a ∷ []) (f (record a { addr = first; len = end - first }) ∷ [])
          (tail_of end a ∷ []) (head_some first a h (omega arith))
          (middle_is first end a _ same (omega arith)) (tail_some end a (omega arith) l)
