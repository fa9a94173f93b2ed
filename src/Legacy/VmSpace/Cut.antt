-- ===== src/Legacy/VmSpace/Cut.antt =====
-- What unmapping a range should leave of an ordered list of allocations.
use obliteration.Prelude.{
  ℕ, ◌-◌, ◌≡◌, ◌<◌, ◌≤◌, refl, ap, List, [], ◌∷◌, ◌++◌, ltb, if◌then◌else◌, min, max, arith,
}
use obliteration.Legacy.VmSpace.{Alloc, end_of}

-- The allocations are not empty, ascend from `lo` on, and do not overlap.
abbrev pub Apart : ℕ → List Alloc → Type 0
Apart lo [] = Unit {0}
Apart lo (a ∷ rest) = (lo ≤ a.addr) × (0 < a.len) × Apart (end_of a) rest

-- The part of an allocation below `first`, and the part from `end` on.
abbrev pub head_piece : ℕ → Alloc → List Alloc
head_piece first a =
    if ltb a.addr first then record a { len = min (end_of a) first - a.addr } ∷ [] else []

abbrev pub tail_piece : ℕ → Alloc → List Alloc
tail_piece end a =
    if ltb end (end_of a)
    then record a { addr = max a.addr end; len = end_of a - max a.addr end } ∷ []
    else []

unfoldable pub cut : ℕ → ℕ → List Alloc → List Alloc
cut first end [] = []
cut first end (a ∷ rest) = head_piece first a ++ (tail_piece end a ++ cut first end rest)

pub alloc_eq :
    (a b : Alloc)
    → a.addr ≡ b.addr
    → a.len ≡ b.len
    → a.prot ≡ b.prot
    → a.name ≡ b.name
    → a.storage ≡ b.storage
    → a ≡ b
alloc_eq a b h1 h2 h3 h4 h5 = cc

pub head_all : (first : ℕ) (a : Alloc) → end_of a ≤ first → 0 < a.len → head_piece first a ≡ a ∷ []
head_all first a h pos =
    let same : record a { len = min (end_of a) first - a.addr } ≡ a =
      alloc_eq _ _ refl (omega arith) refl refl refl in
    ground (arith, same)

pub head_none : (first : ℕ) (a : Alloc) → first ≤ a.addr → head_piece first a ≡ []
head_none first a h = ground arith

pub tail_all : (end : ℕ) (a : Alloc) → end ≤ a.addr → 0 < a.len → tail_piece end a ≡ a ∷ []
tail_all end a h pos =
    let same : record a { addr = max a.addr end; len = end_of a - max a.addr end } ≡ a =
      alloc_eq _ _ (omega arith) (omega arith) refl refl refl in
    ground (arith, same)

pub tail_none : (end : ℕ) (a : Alloc) → end_of a ≤ end → tail_piece end a ≡ []
tail_none end a h = ground arith

-- Allocations behind the range stay.
pub cut_beyond :
    (first end lo : ℕ) (allocs : List Alloc)
    → first ≤ end
    → end ≤ lo
    → Apart lo allocs
    → cut first end allocs ≡ allocs
unfolding cut
cut_beyond first end lo [] h k w = refl
cut_beyond first end lo (a ∷ rest) h k w = rw (head_none first a (omega (arith, w.0))) (
    rw (tail_all end a (omega (arith, w.0)) w.1)
      (ap (λ l. a ∷ l) (cut_beyond first end (end_of a) rest h (omega (arith, w.0)) w.2)))

pub cut_front :
    (first end : ℕ) (a : Alloc) (rest : List Alloc)
    → end_of a ≤ first
    → first ≤ end
    → 0 < a.len
    → cut first end (a ∷ rest) ≡ a ∷ cut first end rest
unfolding cut
cut_front first end a rest h k pos =
    rw (head_all first a h pos) (rw (tail_none end a (omega arith)) refl)

pub cut_whole :
    (first end : ℕ) (a : Alloc) (rest : List Alloc)
    → first ≤ a.addr
    → end_of a ≤ end
    → cut first end (a ∷ rest) ≡ cut first end rest
unfolding cut
cut_whole first end a rest h k = rw (head_none first a h) (rw (tail_none end a k) refl)

-- What is left of an allocation from `end` on.
abbrev pub tail_of : ℕ → Alloc → Alloc
tail_of end a = record a { addr = end; len = end_of a - end }

pub tail_some :
    (end : ℕ) (a : Alloc) → a.addr < end → end < end_of a → tail_piece end a ≡ tail_of end a ∷ []
tail_some end a h k =
    let same : record a { addr = max a.addr end; len = end_of a - max a.addr end } ≡ tail_of end a =
      alloc_eq _ _ (omega arith) (omega arith) refl refl refl in
    ground (arith, same)

abbrev pub head_of : ℕ → Alloc → Alloc
head_of first a = record a { len = first - a.addr }

pub head_some :
    (first : ℕ) (a : Alloc)
    → a.addr < first
    → first < end_of a
    → head_piece first a ≡ head_of first a ∷ []
head_some first a h k =
    let same : record a { len = min (end_of a) first - a.addr } ≡ head_of first a =
      alloc_eq _ _ refl (omega arith) refl refl refl in
    ground (arith, same)

pub cut_last :
    (first end : ℕ) (a : Alloc) (rest : List Alloc)
    → first ≤ a.addr
    → a.addr < end
    → end < end_of a
    → cut first end (a ∷ rest) ≡ tail_of end a ∷ cut first end rest
unfolding cut
cut_last first end a rest h k l = rw (head_none first a h) (rw (tail_some end a k l) refl)

pub cut_first :
    (first end : ℕ) (a : Alloc) (rest : List Alloc)
    → a.addr < first
    → first < end_of a
    → end_of a ≤ end
    → cut first end (a ∷ rest) ≡ head_of first a ∷ cut first end rest
unfolding cut
cut_first first end a rest h k l = rw (head_some first a h k) (rw (tail_none end a l) refl)

pub cut_middle :
    (first end : ℕ) (a : Alloc) (rest : List Alloc)
    → a.addr < first
    → first < end
    → end < end_of a
    → cut first end (a ∷ rest) ≡ head_of first a ∷ tail_of end a ∷ cut first end rest
unfolding cut
cut_middle first end a rest h k l =
    rw (head_some first a h (omega arith)) (rw (tail_some end a (omega arith) l) refl)
