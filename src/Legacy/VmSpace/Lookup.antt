-- ===== src/Legacy/VmSpace/Lookup.antt =====
-- What an address stands for, before and after a range is cut out.
use obliteration.Prelude.{
  ℕ, ◌≡◌, ◌<◌, ◌≤◌, refl, sym, ◌&&◌, Option, none, some, List, [], ◌∷◌, ◌++◌, ltb, leb,
  if◌then◌else◌, arith, dec_le, subst,
}
use obliteration.Legacy.VmSpace.{Alloc, end_of}
use obliteration.Legacy.VmSpace.Cut.{
  Apart, cut, cut_beyond, cut_front, cut_whole, cut_last, cut_first, cut_middle, tail_of, head_of,
  head_piece, tail_piece,
}
use obliteration.Legacy.VmSpace.Start.{covers}

-- What an allocation gives each of its addresses.
pub record Page : Type 0 where
  pub prot : ℕ
  pub name : List ℕ
  pub storage : ℕ

abbrev pub page_of : Alloc → Page
page_of a = record { prot = a.prot; name = a.name; storage = a.storage }

unfoldable pub page_at : List Alloc → ℕ → Option Page
page_at [] x = none
page_at (a ∷ rest) x = if covers a x then some (page_of a) else page_at rest x

pub page_at-head :
    (first x : ℕ) (a : Alloc) (rest : List Alloc)
    → page_at (head_piece first a ++ rest) x
      ≡ (if covers a x && ltb x first then some (page_of a) else page_at rest x)
unfolding page_at
page_at-head first x a rest = ground arith

pub page_at-tail :
    (end x : ℕ) (a : Alloc) (rest : List Alloc)
    → page_at (tail_piece end a ++ rest) x
      ≡ (if covers a x && leb end x then some (page_of a) else page_at rest x)
unfolding page_at
page_at-tail end x a rest = ground arith

pub page_at-cons :
    (a : Alloc) (rest : List Alloc) (x : ℕ)
    → page_at (a ∷ rest) x ≡ (if covers a x then some (page_of a) else page_at rest x)
unfolding page_at
page_at-cons a rest x = refl

-- After the cut no address of the range stands for anything, and the others for what they did.
pub page_at-cut :
    (first end : ℕ) (allocs : List Alloc) (x : ℕ)
    → page_at (cut first end allocs) x
      ≡ (if leb first x && ltb x end then none else page_at allocs x)
unfolding cut
page_at-cut first end [] x = unfold page_at in ground arith
page_at-cut first end (a ∷ rest) x = ground (
  arith,
  page_at-head first x a (tail_piece end a ++ cut first end rest),
  page_at-tail end x a (cut first end rest),
  page_at-cons a rest x,
  page_at-cut first end rest x,
)

pub Apart-lower : (lo lo' : ℕ) (allocs : List Alloc) → lo ≤ lo' → Apart lo' allocs → Apart lo allocs
Apart-lower lo lo' [] h w = tt
Apart-lower lo lo' (a ∷ rest) h w = (omega (arith, w.0), w.1, w.2)

same_Apart : (lo : ℕ) (xs ys : List Alloc) → ys ≡ xs → Apart lo xs → Apart lo ys
same_Apart lo xs ys h w = subst (λ l. Apart lo l) (sym h) w

-- What is left is still in order.
pub cut-Apart :
    (first end lo : ℕ) (allocs : List Alloc)
    → first < end
    → Apart lo allocs
    → Apart lo (cut first end allocs)
cut-Apart first end lo [] h w = unfold cut in tt
cut-Apart first end lo (a ∷ rest) h w =
    let later = cut-Apart first end (end_of a) rest h w.2 in
    elim (dec_le (end_of a) first) [
      | yes front ↦
          same_Apart lo _ _ (cut_front first end a rest front (omega arith) w.1) (w.0, w.1, later)
      | no reached ↦ elim (dec_le end a.addr) [
        | yes beyond ↦
            same_Apart lo _ _
              (cut_beyond first end end (a ∷ rest) (omega arith) (omega arith) (beyond, w.1, w.2)) w
        | no touched ↦ elim (dec_le first a.addr) [
          | yes from ↦ elim (dec_le (end_of a) end) [
            | yes whole ↦
                same_Apart lo _ _ (cut_whole first end a rest from whole)
                  (Apart-lower lo (end_of a) _ (omega (arith, w.0)) later)
            | no last ↦
                same_Apart lo _ _ (cut_last first end a rest from (omega arith) (omega arith)) (
                  omega (arith, w.0),
                  omega arith,
                  Apart-lower (end_of (tail_of end a)) (end_of a) _ (omega arith) later,
                )
          ]
          | no behind ↦ elim (dec_le (end_of a) end) [
            | yes over ↦
                same_Apart lo _ _ (cut_first first end a rest (omega arith) (omega arith) over) (
                  w.0,
                  omega arith,
                  Apart-lower (end_of (head_of first a)) (end_of a) _ (omega arith) later,
                )
            | no middle ↦
                same_Apart lo _ _ (cut_middle first end a rest (omega arith) h (omega arith)) (
                  w.0,
                  omega arith,
                  (
                    omega arith,
                    omega arith,
                    Apart-lower (end_of (tail_of end a)) (end_of a) _ (omega arith) later,
                  ),
                )
          ]
        ]
      ]
    ]
