-- ===== src/Legacy/VmSpace/Start.antt =====
-- Where the iterator `StartFromMut` starts.
use obliteration.Prelude.{
  ℕ, ◌≡◌, ◌<◌, ◌≤◌, refl, Bool, true, false, ◌&&◌, ◌||◌, none, some, List, [], ◌∷◌, ltb, leb, arith,
  Option-cases, inl, inr, Bool-cases,
}
use obliteration.Legacy.VmSpace.{Alloc, end_of, last_at_most, from_key, before_key, start_from}
use obliteration.Legacy.VmSpace.Cut.{Apart}

-- Whether an address lies in an allocation, and in one of a list.
abbrev pub covers : Alloc → ℕ → Bool
covers a x = leb a.addr x && ltb x (end_of a)

unfoldable pub covered : List Alloc → ℕ → Bool
covered [] x = false
covered (a ∷ rest) x = covers a x || covered rest x

pub last_at_most-beyond :
    (x lo : ℕ) (allocs : List Alloc) → x < lo → Apart lo allocs → last_at_most allocs x ≡ none
unfolding last_at_most
last_at_most-beyond x lo [] h w = refl
last_at_most-beyond x lo (a ∷ rest) h w =
    ground (arith, w.0, last_at_most-beyond x (end_of a) rest (omega (arith, w.0)) w.2)

pub covered-from :
    (x lo : ℕ) (allocs : List Alloc) → Apart lo allocs → covered allocs x ≡ true → lo ≤ x
unfolding covered
covered-from x lo [] w h = cc
covered-from x lo (a ∷ rest) w h = elim (Bool-cases (covered rest x)) [
  | inl later ↦ omega (arith, w.0, covered-from x (end_of a) rest w.2 later)
  | inr not_later ↦ ground (arith, w.0)
]

-- What is found is in the list, so it has its bounds.
record Found (allocs : List Alloc) (lo x : ℕ) (b : Alloc) : Type 0 where
  from : lo ≤ b.addr
  at_most : b.addr ≤ x
  in_list : covers b x ≡ true → covered allocs x ≡ true

last_at_most-Found :
    (x lo : ℕ) (allocs : List Alloc) (b : Alloc)
    → Apart lo allocs
    → last_at_most allocs x ≡ some b
    → Found allocs lo x b
unfolding last_at_most covered
last_at_most-Found x lo [] b w h = cc
last_at_most-Found x lo (a ∷ rest) b w h = elim (Option-cases (last_at_most rest x)) [
  | inl absent ↦
      let same : a ≡ b = ground arith in
      record {
        from = ground (arith, w.0, same);
        at_most = ground (arith, same);
        in_list = λ c. ground (arith, same);
      }
  | inr present ↦
      let later = last_at_most-Found x (end_of a) rest present.0 w.2 present.1 in
      let same : present.0 ≡ b = ground (arith, present.1) in
      record {
        from = ground (arith, w.0, later.from, same);
        at_most = ground (arith, later.at_most, same);
        in_list = λ c. ground (arith, later.in_list, same);
      }
]

last_at_most-none :
    (x : ℕ) (allocs : List Alloc) → last_at_most allocs x ≡ none → covered allocs x ≡ false
unfolding last_at_most covered
last_at_most-none x [] h = refl
last_at_most-none x (a ∷ rest) h = elim (Option-cases (last_at_most rest x)) [
  | inl absent ↦ ground (arith, last_at_most-none x rest absent)
  | inr present ↦ ground (arith, present.1)
]

-- Nothing, where the address is in no allocation.
pub start_from-none :
    (x lo : ℕ) (allocs : List Alloc)
    → Apart lo allocs
    → covered allocs x ≡ false
    → start_from allocs x ≡ (allocs, [])
unfolding start_from
start_from-none x lo allocs w h = elim (Option-cases (last_at_most allocs x)) [
  | inl absent ↦ ground arith
  | inr present ↦
      let f = last_at_most-Found x lo allocs present.0 w present.1 in
      ground (arith, present.1, f.at_most, f.in_list)
]

pub start_from-here :
    (x : ℕ) (a : Alloc) (rest : List Alloc)
    → a.addr ≤ x
    → x < end_of a
    → Apart (end_of a) rest
    → start_from (a ∷ rest) x ≡ ([], a ∷ rest)
unfolding start_from last_at_most before_key from_key
start_from-here x a rest h k w = ground (arith, last_at_most-beyond x (end_of a) rest k w)

pub start_from-later :
    (x : ℕ) (a : Alloc) (rest front suffix : List Alloc)
    → 0 < a.len
    → Apart (end_of a) rest
    → covered rest x ≡ true
    → start_from rest x ≡ (front, suffix)
    → start_from (a ∷ rest) x ≡ (a ∷ front, suffix)
unfolding start_from last_at_most before_key from_key
start_from-later x a rest front suffix pos w c h = elim (Option-cases (last_at_most rest x)) [
  | inl absent ↦ ground (arith, last_at_most-none x rest absent)
  | inr present ↦
      let f = last_at_most-Found x (end_of a) rest present.0 w present.1 in
      ground (arith, present.1, f.from)
]
