-- ===== src/Legacy/VmSpace/Mmap/Reserved.antt =====
-- legacy/src/vm/vm.rs: what `alloc` comes to, by what the host gives.
use obliteration.Prelude.{
  ℕ, ◌+◌, ◌∙◌, ◌-◌, ◌%◌, ◌^◌, ◌≡◌, ◌<◌, ◌≤◌, refl, ap, ◌⊎◌, inl, inr, true, false, Option, some,
  List, ltb, arith, Result, ok, err, Flow, done, add64, sub64, Option-cases,
}
use obliteration.Legacy.VmSpace.{Alloc, end_of, page_size, align_virtual_page}
use obliteration.Legacy.VmSpace.Mmap.{HostError, out_of_memory, determine, alloc}
use obliteration.Legacy.VmSpace.Mmap.Insert.{Free}

Result-cases : {A E : Type 0} (r : Result A E) → ((e : E) × (r ≡ err e)) ⊎ ((a : A) × (r ≡ ok a))
Result-cases (ok a) = inr (a, refl)
Result-cases (err e) = inl (e, refl)

pub add64-fits : (a b : ℕ) → a + b < 2 ^ 64 → add64 a b ≡ done (a + b)
add64-fits a b h = ground arith

sub64-fits : (a b : ℕ) → b ≤ a → sub64 a b ≡ done (a - b)
sub64-fits a b h = ground arith

align-small :
    (p : ℕ)
    → p % 0x1000 ≡ 0
    → p + 0x3000 < 2 ^ 64
    → (align_virtual_page p % page_size ≡ 0)
      × (p ≤ align_virtual_page p)
      × (align_virtual_page p ≤ p + 0x3000)
unfolding align_virtual_page
align-small p h k = (ground (arith, h), ground (arith, h, k), ground (arith, h))

-- The granularity of the host, what it gives that is not in use, and its errors.
module _ (reserve : ℕ → ℕ → Result (ℕ × ℕ) HostError) (commit : ℕ → ℕ → ℕ → ℕ → Option HostError)
    (granularity : ℕ)
    (known : (granularity ≡ 0x1000) ⊎ (granularity ≡ 0x4000) ⊎ (granularity ≡ 0x10000))
    (allocs : List Alloc)
    (grants : (addr len p s : ℕ)
      → reserve addr len ≡ ok (p, s)
      → (p % granularity ≡ 0) × (p + len < 2 ^ 64) × Free allocs p (p + len))
    (refuses : (addr len : ℕ) (e : HostError) → reserve addr len ≡ err e → e ≡ out_of_memory)
    (commits : (s a l p : ℕ) (e : HostError) → commit s a l p ≡ some e → e ≡ out_of_memory) where
  -- The host, asked for a range at `addr` of `len` bytes and the slack of less than a page, has none;
  -- or it gives one, and does not commit a part of it.
  abbrev pub Exhausted : ℕ → ℕ → ℕ → Type 0
  Exhausted addr len prot =
      (n : ℕ) × (len ≤ n)
      × (n < len + page_size)
      × ((reserve addr n ≡ err out_of_memory)
          ⊎ ((p : ℕ) × (s : ℕ) × (a : ℕ) × (l : ℕ) × (reserve addr n ≡ ok (p, s))
              × (p ≤ a)
              × (a + l ≤ p + n)
              × (commit s a l prot ≡ some out_of_memory)))

  Determined : ℕ → ℕ → Flow (Result (ℕ × ℕ × ℕ) HostError) → Type 0
  Determined addr len m =
      ((n : ℕ) × (len ≤ n)
        × (n < len + page_size)
        × (reserve addr n ≡ err out_of_memory)
        × (m ≡ done (err out_of_memory)))
      ⊎ ((a : ℕ) × (l : ℕ) × (s : ℕ) × (p : ℕ) × (n : ℕ) × (m ≡ done (ok (a, l, s)))
          × (len ≤ n)
          × (n < len + page_size)
          × (reserve addr n ≡ ok (p, s))
          × (p ≤ a)
          × (a + l ≤ p + n)
          × (a % page_size ≡ 0)
          × (len ≤ l)
          × Free allocs a (a + l))

  -- A range that is larger than asked for, from the first page in it.
  determine-small :
      (addr len : ℕ)
      → granularity ≡ 0x1000
      → len + 0x3fff < 2 ^ 64
      → Determined addr len (determine reserve commit granularity addr len)
  unfolding Determined determine
  determine-small addr len small h =
      let big = len + (page_size - granularity) in
      let is_small : ltb granularity page_size ≡ true = ground (arith, small) in
      let added : add64 len (page_size - granularity) ≡ done big =
        add64-fits len (page_size - granularity) (omega arith) in
      elim (Result-cases (reserve addr big)) [
        | inl (e, refused) ↦
            let why = refuses addr big e refused in
            inl (
              big,
              omega arith,
              omega (arith, small),
              refused ∙ ap (λ t. err t) why,
              rw (is_small, added, refused) (ap (λ t. done (err t)) why),
            )
        | inr ((p, s), given) ↦
            let (at, below, free) = grants addr big p s given in
            let up = align_virtual_page p in
            let (whole, from, near) =
              align-small p (ground (arith, at, small)) (omega (arith, small, below)) in
            let skipped : sub64 up p ≡ done (up - p) = sub64-fits up p from in
            let left : sub64 big (up - p) ≡ done (big - (up - p)) =
              sub64-fits big (up - p) (omega (arith, small, near)) in
            inr (
              up,
              big - (up - p),
              s,
              p,
              big,
              rw (is_small, added, given, skipped, left) refl,
              omega arith,
              omega (arith, small),
              given,
              from,
              omega (arith, from, near, small),
              whole,
              omega (arith, small, near),
              λ x low high.
                  free x (omega (arith, from, low)) (omega (arith, from, near, small, high)),
            )
      ]

  determine-large :
      (addr len : ℕ)
      → (granularity ≡ 0x4000) ⊎ (granularity ≡ 0x10000)
      → Determined addr len (determine reserve commit granularity addr len)
  unfolding Determined determine
  determine-large addr len large =
      let is_large : ltb granularity page_size ≡ false = ground (arith, large) in
      elim (Result-cases (reserve addr len)) [
        | inl (e, refused) ↦
            let why = refuses addr len e refused in
            inl (
              len,
              omega arith,
              omega arith,
              refused ∙ ap (λ t. err t) why,
              rw (is_large, refused) (ap (λ t. done (err t)) why),
            )
        | inr ((p, s), given) ↦
            let (at, below, free) = grants addr len p s given in
            inr (
              p,
              len,
              s,
              p,
              len,
              rw (is_large, given) refl,
              omega arith,
              omega arith,
              given,
              omega arith,
              omega arith,
              ground (arith, at, large),
              omega arith,
              free,
            )
      ]

  determine-Determined :
      (addr len : ℕ)
      → len + 0x3fff < 2 ^ 64
      → Determined addr len (determine reserve commit granularity addr len)
  determine-Determined addr len h = elim known [
    | inl small ↦ determine-small addr len small h
    | inr large ↦ determine-large addr len large
  ]

  unfoldable pub Allocated : ℕ → ℕ → ℕ → List ℕ → Flow (Result Alloc HostError) → Type 0
  Allocated addr len prot name m =
      (Exhausted addr len prot × (m ≡ done (err out_of_memory)))
      ⊎ ((a : Alloc) × (m ≡ done (ok a))
          × (a.addr % page_size ≡ 0)
          × (len ≤ a.len)
          × (a.prot ≡ prot)
          × (a.name ≡ name)
          × Free allocs a.addr (end_of a))

  pub alloc-Allocated :
      (addr len prot : ℕ) (name : List ℕ)
      → len + 0x3fff < 2 ^ 64
      → Allocated addr len prot name (alloc reserve commit granularity addr len prot name)
  unfolding Allocated Determined alloc
  alloc-Allocated addr len prot name h = elim (determine-Determined addr len h) [
    | inl (n, from, to, none_left, refused) ↦ inl ((n, from, to, inl none_left), rw refused refl)
    | inr (a, l, s, p, n, given, from, to, range, low, high, whole, enough, free) ↦
        elim (Option-cases (commit s a l prot)) [
          | inl committed ↦ inr (
            record { addr = a; len = l; prot = prot; name = name; storage = s },
            rw (given, committed) refl,
            whole,
            enough,
            refl,
            refl,
            free,
          )
          | inr (e, failed) ↦
              let why = commits s a l prot e failed in
              inl (
                (n, from, to, inr (p, s, a, l, range, low, high, failed ∙ ap (λ t. some t) why)),
                rw (given, failed) (ap (λ t. done (err t)) why),
              )
        ]
  ]
