-- ===== src/Legacy/FileDesc/Laws.antt =====
-- Opening, looking up and closing descriptors.
use obliteration.Prelude.{
  ℕ, zero, suc, ◌≡◌, ◌≢◌, ◌<◌, ◌≤◌, refl, sym, ap, ◌∙◌, ◌↔◌, false, Option, none, some, List, [],
  ◌∷◌, length, set, arith, get_elem?-set_self, get_elem?-set_ne, length-set, Result, ok, err, done,
  ◌>>=◌, ℤ, pos, negsuc, ℕ_discrete, ◌%◌, ◌/◌, ◌⊎◌, inl, inr,
}
use obliteration.Prelude.Bits.{bit_and-ones, bit_and-window}
use obliteration.Legacy.FileDesc.{
  install, alloc, alloc_without_budget, max_fd, lacks, get_internal, get, no_file, free,
}
use obliteration.Legacy.FileDesc.Table.{
  file_at, FirstFree, free_slot-FirstFree, install_self, install_other,
}

-- The flags `has` of a file suffice for `flags`: to read it must have the lowest bit, to write the
-- one above, and nothing is asked of it otherwise.
abbrev pub Suffices : ℕ → ℕ → Type 0
Suffices flags has =
    ((flags ≢ 1) × (flags ≢ 2)) ⊎ ((flags ≡ 1) × (has % 2 ≡ 1)) ⊎ ((flags ≡ 2) × (has / 2 % 2 ≡ 1))

reads : (has : ℕ) → (lacks 1 has ≡ false) ↔ (has % 2 ≡ 1)
unfolding lacks
reads has = (λ h. ground (arith, bit_and-ones 1 has), λ h. ground (arith, bit_and-ones 1 has))

writes : (has : ℕ) → (lacks 2 has ≡ false) ↔ (has / 2 % 2 ≡ 1)
unfolding lacks
writes has =
    (λ h. ground (arith, bit_and-window 1 1 has), λ h. ground (arith, bit_and-window 1 1 has))

asks_nothing : (flags has : ℕ) → flags ≢ 1 → flags ≢ 2 → lacks flags has ≡ false
unfolding lacks
asks_nothing flags has h k = ground arith

suffices : (flags has : ℕ) → lacks flags has ≡ false → Suffices flags has
suffices flags has h = elim (ℕ_discrete flags 1) [
  | yes one ↦ inr (inl (one, (reads has).0 (ap (λ f. lacks f has) (sym one) ∙ h)))
  | no ne ↦ elim (ℕ_discrete flags 2) [
    | yes two ↦ inr (inr (two, (writes has).0 (ap (λ f. lacks f has) (sym two) ∙ h)))
    | no nor ↦ inl (ne, nor)
  ]
]

suffice : (flags has : ℕ) → Suffices flags has → lacks flags has ≡ false
suffice flags has (inl (h, k)) = asks_nothing flags has h k
suffice flags has (inr (inl (one, h))) = ap (λ f. lacks f has) one ∙ (reads has).1 h
suffice flags has (inr (inr (two, h))) = ap (λ f. lacks f has) two ∙ (writes has).1 h

module _ {A : Type 0} where
  -- The table `after` is `before` with `file` at the lowest descriptor that was free.
  pub record Opened (before : List (Option A)) (file : A) (i : ℕ) (after : List (Option A))
      : Type 0 where
    pub first : FirstFree before i
    pub here : file_at after i ≡ some file
    pub elsewhere : (j : ℕ) → i ≢ j → file_at after j ≡ file_at before j

  install-Opened :
      (files : List (Option A)) (file : A) (i : ℕ)
      → FirstFree files i
      → Opened files file i (install files i file)
  install-Opened files file i f = record {
    first = f;
    here = install_self files i file f.within;
    elsewhere = λ j ne. install_other files i j file f.within ne;
  }

  -- Where the table has at most `i32::MAX` slots, `alloc` returns the lowest descriptor that is not in
  -- use, which then stands for the file, and no other descriptor changes.
  pub alloc-Opened :
      (files : List (Option A)) (file : A)
      → length files ≤ max_fd
      → (i : ℕ) × (after : List (Option A)) × (alloc files file ≡ done (i, after))
        × Opened files file i after
  unfolding alloc
  alloc-Opened files file h =
      let (k, found, first) = free_slot-FirstFree files 0 (omega arith) in
      (k, install files k file, ground (arith, found), install-Opened files file k first)

  -- `alloc_without_budget` hands the constructor the lowest free descriptor: an error of it leaves the
  -- table as it was, and its file is opened as `alloc` opens it. The table has at most `i32::MAX` slots.
  pub alloc_without_budget-alloc :
      {E : Type 0} (files : List (Option A)) (constructor : ℕ → Result A E)
      → length files ≤ max_fd
      → (i : ℕ) × FirstFree files i
        × (alloc_without_budget files constructor ≡ elim (constructor i) [
          | err e ↦ done (err e, files)
          | ok file ↦ alloc files file >>= (λ r. done (ok r.0, r.1))
        ])
  unfolding alloc alloc_without_budget
  alloc_without_budget-alloc files constructor h =
      let (k, found, first) = free_slot-FirstFree files 0 (omega arith) in
      (k, first, ground (arith, found))

  got :
      (flags_of : A → ℕ) (files : List (Option A)) (fd : ℤ) (flags : ℕ) (file : A)
      → get_internal flags_of files fd flags ≡ ok file
      → (i : ℕ) × (fd ≡ pos i)
        × (file_at files i ≡ some file)
        × (lacks flags (flags_of file) ≡ false)
  unfolding get_internal
  got flags_of files (negsuc n) flags file h = cc
  got flags_of files (pos i) flags file h = (i, refl, ground arith, ground arith)

  gets :
      (flags_of : A → ℕ) (files : List (Option A)) (i flags : ℕ) (file : A)
      → file_at files i ≡ some file
      → lacks flags (flags_of file) ≡ false
      → get_internal flags_of files (pos i) flags ≡ ok file
  unfolding get_internal
  gets flags_of files i flags file h k = ground arith

  -- Looking a descriptor up returns a file exactly when the descriptor is not negative, stands for that
  -- file, and the flags of the file suffice: the lowest bit is set where the flag 1, to read, is asked
  -- for, the bit above it where the flag 2, to write, is asked for, and anything will do otherwise.
  pub get_internal_iff :
      (flags_of : A → ℕ) (files : List (Option A)) (fd : ℤ) (flags : ℕ) (file : A)
      → (get_internal flags_of files fd flags ≡ ok file)
        ↔ ((i : ℕ) × (fd ≡ pos i) × (file_at files i ≡ some file) × Suffices flags (flags_of file))
  get_internal_iff flags_of files fd flags file = (
    λ h.
        let (i, at, there, enough) = got flags_of files fd flags file h in
        (i, at, there, suffices flags (flags_of file) enough),
    λ r.
        ap (λ d. get_internal flags_of files d flags) r.1
        ∙ gets flags_of files r.0 flags file r.2 (suffice flags (flags_of file) r.3),
  )

  file_at-set_self :
      (files : List (Option A)) (i : ℕ) → i < length files → file_at (set files i none) i ≡ none
  file_at-set_self files i h = ground (arith, get_elem?-set_self files i none)

  file_at-set_ne :
      (files : List (Option A)) (i j : ℕ) → i ≢ j → file_at (set files i none) j ≡ file_at files j
  file_at-set_ne files i j h = ground (arith, get_elem?-set_ne files i j none)

  get_closed :
      (flags_of : A → ℕ) (files : List (Option A)) (i : ℕ)
      → i < length files
      → get flags_of (set files i none) (pos i) ≡ err no_file
  unfolding get get_internal
  get_closed flags_of files i h = ground (arith, get_elem?-set_self files i none)

  freed :
      (files after : List (Option A)) (fd : ℤ)
      → free files fd ≡ ok after
      → (i : ℕ) × (fd ≡ pos i) × (i < length files) × (after ≡ set files i none)
  unfolding free
  freed files after (negsuc n) h = cc
  freed files after (pos i) h = (i, refl, ground arith, ground arith)

  -- The table `after` is `before` without what the descriptor stood for.
  pub record Closed (flags_of : A → ℕ) (before : List (Option A)) (fd : ℤ) (after : List (Option A))
      : Type 0 where
    pub gone : get flags_of after fd ≡ err no_file
    pub elsewhere : (j : ℕ) → fd ≢ pos j → file_at after j ≡ file_at before j
    pub as_long : length after ≡ length before

  -- Once a descriptor is closed, looking it up finds no file; every other descriptor stands for what
  -- it stood for.
  pub free-Closed :
      (flags_of : A → ℕ) (files after : List (Option A)) (fd : ℤ)
      → free files fd ≡ ok after
      → Closed flags_of files fd after
  free-Closed flags_of files after fd h =
      let (i, at, within, same) = freed files after fd h in
      record {
        gone = cc (at, same, get_closed flags_of files i within);
        elsewhere =
            λ j ne. ap (λ t. file_at t j) same ∙ file_at-set_ne files i j (λ e. ne (at ∙ ap pos e));
        as_long = ap length same ∙ length-set files i none;
      }

  set_twice : (files : List (Option A)) (i : ℕ) → set (set files i none) i none ≡ set files i none
  set_twice [] i = refl
  set_twice (f ∷ files) zero = refl
  set_twice (f ∷ files) (suc i) = ap (λ l. f ∷ l) (set_twice files i)

  free_closed :
      (files : List (Option A)) (i : ℕ)
      → i < length files
      → free (set files i none) (pos i) ≡ ok (set files i none)
  unfolding free
  free_closed files i h = ground (arith, set_twice files i, length-set files i none)

  -- Closing a descriptor a second time succeeds again and changes nothing.
  pub free_again :
      (files after : List (Option A)) (fd : ℤ) → free files fd ≡ ok after → free after fd ≡ ok after
  free_again files after fd h =
      let (i, at, within, same) = freed files after fd h in
      cc (at, same, free_closed files i within)

  file_at-length :
      (files : List (Option A)) (i : ℕ) (file : A) → file_at files i ≡ some file → i < length files
  file_at-length [] i file h = cc
  file_at-length (f ∷ files) zero file h = omega arith
  file_at-length (f ∷ files) (suc i) file h = omega (arith, file_at-length files i file h)

  free_open :
      (files : List (Option A)) (i : ℕ)
      → i < length files
      → free files (pos i) ≡ ok (set files i none)
  unfolding free
  free_open files i h = ground arith

  free-Opened :
      (files opened : List (Option A)) (file : A) (i : ℕ)
      → Opened files file i opened
      → (after : List (Option A)) × (free opened (pos i) ≡ ok after)
        × ((j : ℕ) → file_at after j ≡ file_at files j)
  free-Opened files opened file i o =
      let within = file_at-length opened i file o.here in
      (
        set opened i none,
        free_open opened i within,
        λ j. elim (ℕ_discrete i j) [
          | yes e ↦
              sym (ap (λ k. file_at (set opened i none) k) e)
              ∙ file_at-set_self opened i within
              ∙ sym o.first.unused
              ∙ ap (λ k. file_at files k) e
          | no ne ↦ file_at-set_ne opened i j ne ∙ o.elsewhere j ne
        ],
      )

  -- Where the table has at most `i32::MAX` slots, `alloc` succeeds, `free` of the descriptor that it
  -- returns, on the table that it leaves, succeeds, and every descriptor then stands for what it stood
  -- for before both.
  pub free-alloc :
      (files : List (Option A)) (file : A)
      → length files ≤ max_fd
      → (i : ℕ) × (opened : List (Option A)) × (after : List (Option A)) × (alloc files file
          ≡ done (i, opened))
        × (free opened (pos i) ≡ ok after)
        × ((j : ℕ) → file_at after j ≡ file_at files j)
  free-alloc files file h =
      let (i, opened, opens, o) = alloc-Opened files file h in
      let (after, closes, same) = free-Opened files opened file i o in
      (i, opened, after, opens, closes, same)
