-- ===== src/Legacy/VmSpace/Update/Pages.antt =====
-- The changed list, in terms of what an address stands for, and that it is in order.
use obliteration.Prelude.{
  ℕ, ◌≡◌, ◌<◌, ◌≤◌, sym, ap, ◌∙◌, Bool, false, ◌&&◌, some, List, [], ◌∷◌, ◌++◌, ltb, leb,
  if◌then◌else◌, min, max, arith, subst, Bool-cases, inl, inr, append_assoc,
}
use mathlib.Core.Option
use obliteration.Legacy.VmSpace.{Alloc, end_of}
use obliteration.Legacy.VmSpace.Cut.{Apart, head_piece, tail_piece}
use obliteration.Legacy.VmSpace.Start.{covers}
use obliteration.Legacy.VmSpace.Lookup.{
  Page, page_of, page_at, page_at-head, page_at-tail, page_at-cons, Apart-lower,
}
use obliteration.Legacy.VmSpace.Update.Pieces.{part_of, middle_piece, pieces, renew}

-- The new list, in terms of what an address stands for: `f` changes pages by `g`, and what is no target
-- would not be changed.
module _ (filter : Alloc → Bool) (f : Alloc → Alloc) (g : Page → Page)
    (keeps_addr : (a : Alloc) → (f a).addr ≡ a.addr) (keeps_len : (a : Alloc) → (f a).len ≡ a.len)
    (changes : (a : Alloc) → page_of (f a) ≡ g (page_of a))
    (idle : (a : Alloc) → filter a ≡ false → g (page_of a) ≡ page_of a) where
  page_at-middle :
      (first end x : ℕ) (a : Alloc) (rest : List Alloc)
      → page_at (middle_piece filter f first end a ++ rest) x ≡ (
          if covers a x && (leb first x && ltb x end) then some (g (page_of a)) else page_at rest x)
  unfolding page_at
  page_at-middle first end x a rest = ground (
    arith,
    keeps_addr (part_of first end a),
    keeps_len (part_of first end a),
    changes (part_of first end a),
  )

  joined :
      (first end : ℕ) (a : Alloc) (rest : List Alloc)
      → (head_piece first a ++ (middle_piece filter f first end a ++ tail_piece end a)) ++ rest
        ≡ head_piece first a ++ (middle_piece filter f first end a ++ (tail_piece end a ++ rest))
  joined first end a rest =
      append_assoc (head_piece first a) (middle_piece filter f first end a ++ tail_piece end a) rest
      ∙ ap (λ l. head_piece first a ++ l)
          (append_assoc (middle_piece filter f first end a) (tail_piece end a) rest)

  in_three :
      (first end x : ℕ) (a : Alloc) (rest : List Alloc)
      → first ≤ end
      → page_at
          (head_piece first a ++ (middle_piece filter f first end a ++ (tail_piece end a ++ rest)))
          x
        ≡ (if covers a x
            then some (if leb first x && ltb x end then g (page_of a) else page_of a)
            else page_at rest x)
  in_three first end x a rest h = ground (
    arith,
    page_at-head first x a (middle_piece filter f first end a ++ (tail_piece end a ++ rest)),
    page_at-middle first end x a (tail_piece end a ++ rest),
    page_at-tail end x a rest,
  )

  page_at-pieces :
      (first end x : ℕ) (a : Alloc) (rest : List Alloc)
      → first ≤ end
      → page_at (pieces filter f first end a ++ rest) x ≡ (
          if covers a x
          then some (if leb first x && ltb x end then g (page_of a) else page_of a)
          else page_at rest x)
  page_at-pieces first end x a rest h = elim (Bool-cases (filter a)) [
    | inr other ↦ rw other (page_at-cons a rest x ∙ ground (arith, idle a other))
    | inl target ↦
        rw target (ap (λ l. page_at l x) (joined first end a rest) ∙ in_three first end x a rest h)
  ]

  -- In the range every address stands for what `g` makes of it, and outside for what it did.
  pub page_at-renew :
      (first end : ℕ) (allocs : List Alloc) (x : ℕ)
      → first ≤ end
      → page_at (renew filter f first end allocs) x
        ≡ (if leb first x && ltb x end then Option.map g (page_at allocs x) else page_at allocs x)
  unfolding renew
  page_at-renew first end [] x h = unfold page_at in ground arith
  page_at-renew first end (a ∷ rest) x h = ground (
    arith,
    page_at-pieces first end x a (renew filter f first end rest) h,
    page_at-cons a rest x,
    page_at-renew first end rest x h,
  )

  -- Where the parts of an allocation in front of the range and in it end.
  abbrev front_end : ℕ → Alloc → ℕ
  front_end first a = min (end_of a) (max a.addr first)

  abbrev middle_end : ℕ → Alloc → ℕ
  middle_end end a = max a.addr (min (end_of a) end)

  head-Apart :
      (first lo : ℕ) (a : Alloc) (rest : List Alloc)
      → lo ≤ a.addr
      → 0 < a.len
      → Apart (front_end first a) rest
      → Apart lo (head_piece first a ++ rest)
  head-Apart first lo a rest h pos w = elim (Bool-cases (ltb a.addr first)) [
    | inl front ↦
        rw front (
          h,
          ground (arith, front),
          Apart-lower _ (front_end first a) rest (ground (arith, front)) w,
        )
    | inr none_left ↦
        rw none_left (Apart-lower lo (front_end first a) rest (ground (arith, none_left)) w)
  ]

  middle-Apart :
      (first end : ℕ) (a : Alloc) (rest : List Alloc)
      → first < end
      → Apart (middle_end end a) rest
      → Apart (front_end first a) (middle_piece filter f first end a ++ rest)
  middle-Apart first end a rest h w =
      elim (Bool-cases (ltb (max a.addr first) (min (end_of a) end))) [
        | inl inside ↦ rw inside (
          omega (arith, keeps_addr (part_of first end a)),
          ground (arith, inside, keeps_len (part_of first end a)),
          Apart-lower _ (middle_end end a) rest
              (ground
                (arith, inside, keeps_addr (part_of first end a), keeps_len (part_of first end a)))
              w,
        )
        | inr outside ↦ rw outside (Apart-lower _ (middle_end end a) rest (omega arith) w)
      ]

  tail-Apart :
      (end : ℕ) (a : Alloc) (rest : List Alloc)
      → 0 < a.len
      → Apart (end_of a) rest
      → Apart (middle_end end a) (tail_piece end a ++ rest)
  tail-Apart end a rest pos w = elim (Bool-cases (ltb end (end_of a))) [
    | inl behind ↦ rw behind (
      ground (arith, behind),
      ground (arith, behind),
      Apart-lower _ (end_of a) rest (ground (arith, behind)) w,
    )
    | inr none_left ↦ rw none_left (Apart-lower _ (end_of a) rest (ground (arith, none_left)) w)
  ]

  -- The new list is still in order.
  pub renew-Apart :
      (first end lo : ℕ) (allocs : List Alloc)
      → first < end
      → Apart lo allocs
      → Apart lo (renew filter f first end allocs)
  unfolding renew
  renew-Apart first end lo [] h w = tt
  renew-Apart first end lo (a ∷ rest) h w =
      let later = renew-Apart first end (end_of a) rest h w.2 in
      elim (Bool-cases (filter a)) [
        | inr other ↦ rw other (w.0, w.1, later)
        | inl target ↦ rw target (
            subst (λ l. Apart lo l) (sym (joined first end a (renew filter f first end rest)))
              (head-Apart first lo a _ w.0 w.1
                (middle-Apart first end a _ h (tail-Apart end a _ w.1 later))))
      ]
