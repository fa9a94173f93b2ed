-- ===== src/Legacy/VmSpace/Edit.antt =====
-- Insertions and removals at keys behind the start of a list.
use obliteration.Prelude.{
  ℕ, ◌≡◌, ◌<◌, ◌≤◌, refl, ap, ◌∙◌, some, List, [], ◌∷◌, arith, done, Option-cases, inl, inr,
}
use obliteration.Legacy.VmSpace.{Alloc, insert, remove, insert_all, remove_all}
use obliteration.Legacy.VmSpace.Cut.{Apart}

-- All keys are `lo` or above.
abbrev pub KeysFrom : ℕ → List ℕ → Type 0
KeysFrom lo [] = Unit {0}
KeysFrom lo (key ∷ keys) = (lo ≤ key) × KeysFrom lo keys

abbrev pub AddsFrom : ℕ → List Alloc → Type 0
AddsFrom lo [] = Unit {0}
AddsFrom lo (a ∷ adds) = (lo ≤ a.addr) × AddsFrom lo adds

pub KeysFrom-lower : (lo lo' : ℕ) (keys : List ℕ) → lo ≤ lo' → KeysFrom lo' keys → KeysFrom lo keys
KeysFrom-lower lo lo' [] h k = tt
KeysFrom-lower lo lo' (key ∷ keys) h k = (omega (arith, k.0), KeysFrom-lower lo lo' keys h k.1)

pub AddsFrom-lower :
    (lo lo' : ℕ) (adds : List Alloc) → lo ≤ lo' → AddsFrom lo' adds → AddsFrom lo adds
AddsFrom-lower lo lo' [] h k = tt
AddsFrom-lower lo lo' (a ∷ adds) h k = (omega (arith, k.0), AddsFrom-lower lo lo' adds h k.1)

-- An insertion in front of all.
pub insert_first :
    (a : Alloc) (lo : ℕ) (allocs : List Alloc)
    → a.addr < lo
    → Apart lo allocs
    → insert a allocs ≡ some (a ∷ allocs)
unfolding insert
insert_first a lo [] h w = refl
insert_first a lo (b ∷ rest) h w = ground (arith, w.0)

pub insert_later :
    (a b : Alloc) (allocs allocs' : List Alloc)
    → b.addr < a.addr
    → insert a allocs ≡ some allocs'
    → insert a (b ∷ allocs) ≡ some (b ∷ allocs')
unfolding insert
insert_later a b allocs allocs' h k = ground arith

remove_later :
    (key : ℕ) (b : Alloc) (allocs : List Alloc)
    → b.addr < key
    → remove key (b ∷ allocs) ≡ b ∷ remove key allocs
unfolding remove
remove_later key b allocs h = ground arith

pub remove_here : (b : Alloc) (allocs : List Alloc) → remove b.addr (b ∷ allocs) ≡ allocs
unfolding remove
remove_here b allocs = ground arith

pub remove_all-later :
    (keys : List ℕ) (b : Alloc) (allocs : List Alloc) (lo : ℕ)
    → b.addr < lo
    → KeysFrom lo keys
    → remove_all keys (b ∷ allocs) ≡ b ∷ remove_all keys allocs
unfolding remove_all
remove_all-later [] b allocs lo h k = refl
remove_all-later (key ∷ keys) b allocs lo h k =
    ap (λ l. remove_all keys l) (remove_later key b allocs (omega (arith, k.0)))
    ∙ remove_all-later keys b (remove key allocs) lo h k.1

pub insert_all-later :
    (adds : List Alloc) (b : Alloc) (allocs added : List Alloc) (lo : ℕ)
    → b.addr < lo
    → AddsFrom lo adds
    → insert_all adds allocs ≡ done added
    → insert_all adds (b ∷ allocs) ≡ done (b ∷ added)
unfolding insert_all
insert_all-later [] b allocs added lo h k e = cc
insert_all-later (a ∷ adds) b allocs added lo h k e = elim (Option-cases (insert a allocs)) [
  | inl absent ↦ ground arith
  | inr present ↦ ground (
    arith,
    insert_later a b allocs present.0 (omega (arith, k.0)) present.1,
    insert_all-later adds b present.0 added lo h k.1,
  )
]

pub remove_all-here :
    (keys : List ℕ) (b : Alloc) (allocs : List Alloc)
    → remove_all (b.addr ∷ keys) (b ∷ allocs) ≡ remove_all keys allocs
unfolding remove_all
remove_all-here keys b allocs = ap (λ l. remove_all keys l) (remove_here b allocs)

-- One insertion right behind the first of the list.
pub insert_all-second :
    (a b : Alloc) (lo : ℕ) (rest : List Alloc)
    → b.addr < a.addr
    → a.addr < lo
    → Apart lo rest
    → insert_all (a ∷ []) (b ∷ rest) ≡ done (b ∷ a ∷ rest)
unfolding insert_all
insert_all-second a b lo rest h k w =
    ground (arith, insert_later a b rest (a ∷ rest) h (insert_first a lo rest k w))

pub remove_all-none : (allocs : List Alloc) → remove_all [] allocs ≡ allocs
unfolding remove_all
remove_all-none allocs = refl

pub remove_all-one :
    (b : Alloc) (allocs : List Alloc) → remove_all (b.addr ∷ []) (b ∷ allocs) ≡ allocs
remove_all-one b allocs = remove_all-here [] b allocs ∙ remove_all-none allocs
