-- ===== src/Legacy/FileDesc/Table.antt =====
-- What the search for a free slot finds, and what the table holds after a write.
use obliteration.Prelude.{
  ℕ, zero, suc, ◌+◌, ◌≡◌, ◌≢◌, ◌<◌, ◌≤◌, refl, ap, Option, none, some, List, [], ◌∷◌, ◌++◌, length,
  get_elem?, arith, get_elem?-set_self, get_elem?-set_ne,
}
use obliteration.Legacy.FileDesc.{free_slot, install, max_fd}

-- What a descriptor stands for: nothing, unless the slot is there and in use.
abbrev pub file_at : {A : Type 0} → List (Option A) → ℕ → Option A
file_at files i = elim (get_elem? files i) [ none ↦ none | some slot ↦ slot ]

module _ {A : Type 0} where
  -- The slot that is found is free, and those in front of it are in use.
  pub record FirstFree (files : List (Option A)) (i : ℕ) : Type 0 where
    pub unused : file_at files i ≡ none
    pub within : i ≤ length files
    pub earlier_used : (j : ℕ) → j < i → file_at files j ≢ none

  first_here : (files : List (Option A)) → file_at files 0 ≡ none → FirstFree files 0
  first_here files h = record {
    unused = h;
    within = omega arith;
    earlier_used = λ j below. absurd (omega arith);
  }

  first_later :
      (file : A) (files : List (Option A)) (i : ℕ)
      → FirstFree files i
      → FirstFree (some file ∷ files) (suc i)
  first_later file files i f = record {
    unused = f.unused;
    within = omega (arith, f.within);
    earlier_used = used;
  }
    where
      used : (j : ℕ) → j < suc i → file_at (some file ∷ files) j ≢ none
      used zero below h = cc
      used (suc j) below h = f.earlier_used j (omega arith) h

  -- A table of no more slots than there are descriptors has a free one or room for one more.
  pub free_slot-FirstFree :
      (files : List (Option A)) (i : ℕ)
      → i + length files ≤ max_fd
      → (k : ℕ) × (free_slot i files ≡ some (i + k)) × FirstFree files k
  unfolding free_slot
  free_slot-FirstFree [] i h = (0, ground arith, first_here [] refl)
  free_slot-FirstFree (none ∷ files) i h = (0, ground arith, first_here (none ∷ files) refl)
  free_slot-FirstFree (some file ∷ files) i h =
      let later = free_slot-FirstFree files (i + 1) (omega arith) in
      (suc later.0, ground (arith, later.1), first_later file files later.0 later.2)

  get_elem?-snoc :
      (files : List (Option A)) (slot : Option A) (j : ℕ)
      → j ≢ length files
      → get_elem? (files ++ slot ∷ []) j ≡ get_elem? files j
  get_elem?-snoc [] slot zero h = absurd (h refl)
  get_elem?-snoc [] slot (suc j) h = refl
  get_elem?-snoc (f ∷ files) slot zero h = refl
  get_elem?-snoc (f ∷ files) slot (suc j) h = get_elem?-snoc files slot j (λ e. h (ap suc e))

  get_elem?-last :
      (files : List (Option A)) (slot : Option A)
      → get_elem? (files ++ slot ∷ []) (length files) ≡ some slot
  get_elem?-last [] slot = refl
  get_elem?-last (f ∷ files) slot = get_elem?-last files slot

  pub install_self :
      (files : List (Option A)) (i : ℕ) (file : A)
      → i ≤ length files
      → file_at (install files i file) i ≡ some file
  unfolding install
  install_self files i file h =
      ground (arith, get_elem?-last files (some file), get_elem?-set_self files i (some file))

  pub install_other :
      (files : List (Option A)) (i j : ℕ) (file : A)
      → i ≤ length files
      → i ≢ j
      → file_at (install files i file) j ≡ file_at files j
  unfolding install
  install_other files i j file h ne =
      ground (arith, get_elem?-snoc files (some file) j, get_elem?-set_ne files i j (some file))
