-- ===== src/Legacy/VmSpace/Update/Outcome.antt =====
-- legacy/src/vm/vm.rs: what `mprotect` and `mname` come to.
use obliteration.Prelude.{
  ℕ, ◌+◌, ◌%◌, ◌^◌, ◌≡◌, ◌<◌, refl, sym, ap, ◌∙◌, ◌⊎◌, inl, inr, Bool, true, false, not, ◌&&◌, List,
  [], ◌∷◌, ◌++◌, ◌==◌, ltb, leb, if◌then◌else◌, arith, Result, ok, err, Flow, done, panic, ◌>>=◌,
  and_then_ok, unwrap_none, Bool-cases, subst,
}
use mathlib.Core.Option
use obliteration.Legacy.VmSpace.{Alloc, page_size, start_from}
use obliteration.Legacy.VmSpace.Cut.{Apart}
use obliteration.Legacy.VmSpace.Start.{covered, start_from-none}
use obliteration.Legacy.VmSpace.Lookup.{Page, page_of, page_at}
use obliteration.Legacy.VmSpace.Refine.{page_end, page_end-behind, align_virtual_page-page_end}
use obliteration.Legacy.VmSpace.Update.{
  MemoryUpdateError, Updating, invalid_addr, unmapped_addr, select, update_each, assert_all,
  is_empty, update, mprotect, mname, same_name,
}
use obliteration.Legacy.VmSpace.Update.Select.{select-start, Contiguous, Gap}
use obliteration.Legacy.VmSpace.Update.Pages.{page_at-renew, renew-Apart}
use obliteration.Legacy.VmSpace.Update.Range.{
  Ranges-covered, assert_all-done, Contiguous-all, Gap-all,
}

-- The three ends of a change of the pages from `first` up to `end` by `g`.
abbrev pub Outcome :
    List Alloc → ℕ → ℕ → (Page → Page) → Flow (Result (List Alloc) MemoryUpdateError) → Type 0
Outcome allocs first end g r =
    ((covered allocs first ≡ false) × (r ≡ done (err invalid_addr)))
    ⊎ ((x : ℕ) × (covered allocs first ≡ true)
        × Gap allocs first end x
        × (r ≡ done (err (unmapped_addr x))))
    ⊎ ((after : List Alloc) × (covered allocs first ≡ true)
        × Contiguous allocs first end
        × (r ≡ done (ok after))
        × Apart 0 after
        × ((x : ℕ)
            → page_at after x ≡ (
                if leb first x && ltb x end
                then Option.map g (page_at allocs x)
                else page_at allocs x)))

module _ (filter : Alloc → Bool) (change : Alloc → Flow Alloc) (f : Alloc → Alloc) (g : Page → Page)
    (runs : (a : Alloc) → change a ≡ done (f a)) (keeps_addr : (a : Alloc) → (f a).addr ≡ a.addr)
    (keeps_len : (a : Alloc) → (f a).len ≡ a.len)
    (changes : (a : Alloc) → page_of (f a) ≡ g (page_of a))
    (idle : (a : Alloc) → filter a ≡ false → g (page_of a) ≡ page_of a) where
  -- `update` behind its first two checks, from what the iterator gives.
  abbrev edits : List Alloc × List Alloc → ℕ → ℕ → Flow (Result (List Alloc) MemoryUpdateError)
  edits range addr end = and_then_ok (done (select filter end 0 range.1)) λ targets.
      if is_empty range.1
      then done (err invalid_addr)
      else (update_each change addr end targets >>= λ u.
          assert_all u.adds (range.0 ++ u.kept) >>= λ after. done (ok after))

  edits-gap :
      (allocs : List Alloc) (addr end : ℕ) → edits (allocs, []) addr end ≡ done (err invalid_addr)
  unfolding select
  edits-gap allocs addr end = refl

  edits-stops :
      (front rest : List Alloc) (a : Alloc) (addr end x : ℕ)
      → select filter end 0 (a ∷ rest) ≡ err (unmapped_addr x)
      → edits (front, a ∷ rest) addr end ≡ done (err (unmapped_addr x))
  edits-stops front rest a addr end x h = rw h refl

  edits-changes :
      (front rest added : List Alloc) (a : Alloc) (addr end : ℕ) (targets : List (Alloc × Bool))
      (u : Updating)
      → select filter end 0 (a ∷ rest) ≡ ok targets
      → update_each change addr end targets ≡ done u
      → assert_all u.adds (front ++ u.kept) ≡ done added
      → edits (front, a ∷ rest) addr end ≡ done (ok added)
  edits-changes front rest added a addr end targets u h run all = rw h (rw run (rw all refl))

  edits-Outcome :
      (allocs : List Alloc) (addr end : ℕ)
      → addr < end
      → Apart 0 allocs
      → Outcome allocs addr end g (edits (start_from allocs addr) addr end)
  edits-Outcome allocs addr end h w = elim (Bool-cases (covered allocs addr)) [
    | inr gap ↦ inl (
      gap,
      ap (λ r. edits r addr end) (start_from-none addr 0 allocs w gap) ∙ edits-gap allocs addr end,
    )
    | inl there ↦
        let r =
          Ranges-covered filter change f runs keeps_addr keeps_len addr end 0 allocs h w there in
        elim (select-start filter end addr r.hit r.rest (omega (arith, r.from)) r.from r.to
          r.nonempty r.later) [
            | inr (x, gap, eq) ↦ inr (
                inl (
                  x,
                  there,
                  Gap-all filter change f runs keeps_addr keeps_len r x gap,
                  ap (λ t. edits t addr end) r.start
                      ∙ edits-stops r.front r.rest r.hit addr end x eq,
                ))
            | inl (all, solid) ↦
                let added =
                  assert_all-done r.changes.adds (r.front ++ r.changes.kept) r.added r.inserts in
                inr (
                  inr (
                    r.added,
                    there,
                    Contiguous-all filter change f runs keeps_addr keeps_len r solid,
                    ap (λ t. edits t addr end) r.start
                        ∙ edits-changes r.front r.rest r.added r.hit addr end _ r.changes all r.run
                            added,
                    subst (λ l. Apart 0 l) (sym r.leaves)
                        (renew-Apart filter f g keeps_addr keeps_len changes idle addr end 0 allocs
                          h w),
                    λ x.
                        ap (λ l. page_at l x) r.leaves
                        ∙ page_at-renew filter f g keeps_addr keeps_len changes idle addr end allocs
                            x (omega arith),
                  ))
          ]
  ]

  pub update-Outcome :
      (allocs : List Alloc) (addr len : ℕ)
      → Apart 0 allocs
      → addr % page_size ≡ 0
      → 0 < len
      → addr + len + 0x3fff < 2 ^ 64
      → Outcome allocs addr (page_end addr len) g (update filter change allocs addr len)
  unfolding update
  update-Outcome allocs addr len w aligned pos fits =
      let end = page_end addr len in
      let checked : not (addr % page_size == 0) ≡ false = ground (arith, aligned) in
      let some_len : (len == 0) ≡ false = ground (arith, pos) in
      subst (λ r. Outcome allocs addr end g r)
        (sym (
          rw (checked, some_len)
            (ap (λ e. edits (start_from allocs addr) addr e)
              (align_virtual_page-page_end addr len fits))))
        (edits-Outcome allocs addr end (omega (arith, pos, page_end-behind addr len)) w)

-- What the two calls make of a page.
abbrev pub with_prot : ℕ → Page → Page
with_prot prot p = record p { prot = prot }

abbrev pub with_name : List ℕ → Page → Page
with_name name p = record p { name = name }

same_name-eq : (xs ys : List ℕ) → same_name xs ys ≡ true → xs ≡ ys
unfolding same_name
same_name-eq [] [] h = refl
same_name-eq [] (y ∷ ys) h = cc h
same_name-eq (x ∷ xs) [] h = cc h
same_name-eq (x ∷ xs) (y ∷ ys) h =
    let first : x ≡ y = ground (arith, h) in
    let later : xs ≡ ys = same_name-eq xs ys (ground (arith, h)) in cc (first, later)

not-false : (b : Bool) → not b ≡ false → b ≡ true
not-false true h = refl
not-false false h = cc h

-- `mprotect` of at least one byte from an aligned address, where the allocations are in order, the end of the range
-- rounded up to a page lies below 2 ^ 64, and the host makes every change of protection. It never panics. It refuses
-- an address that is in no allocation, and a range with a gap: it names the first address that is not mapped although
-- a mapped one follows in the range. Where the range has no such gap, every address up to the rounded end that stands
-- for something stands for the same with the new protection, every other address stands for what it did, and the
-- allocations are still in order.
pub mprotect-Outcome :
    (protect : ℕ → ℕ → ℕ → ℕ → Bool) (allocs : List Alloc) (addr len prot : ℕ)
    → ((s a l p : ℕ) → protect s a l p ≡ true)
    → Apart 0 allocs
    → addr % page_size ≡ 0
    → 0 < len
    → addr + len + 0x3fff < 2 ^ 64
    → Outcome allocs addr
        (page_end addr len)
        (with_prot prot)
        (mprotect protect allocs addr len prot)
unfolding mprotect
mprotect-Outcome protect allocs addr len prot protects w aligned pos fits =
    update-Outcome (λ i. not (i.prot == prot))
      (λ i.
        if protect i.storage i.addr i.len prot
        then done (record i { prot = prot })
        else panic unwrap_none)
      (λ i. record i { prot = prot }) (with_prot prot)
      (λ a. rw (protects a.storage a.addr a.len prot) refl) (λ a. refl) (λ a. refl) (λ a. refl)
      (λ a same. ap (λ p. with_prot p (page_of a)) (ground (arith, same))) allocs addr len w aligned
      pos fits

-- `mname` of at least one byte from an aligned address, where the allocations are in order: as `mprotect`, with the
-- name in place of the protection, and whatever the host makes of the name.
pub mname-Outcome :
    (allocs : List Alloc) (addr len : ℕ) (name : List ℕ)
    → Apart 0 allocs
    → addr % page_size ≡ 0
    → 0 < len
    → addr + len + 0x3fff < 2 ^ 64
    → Outcome allocs addr (page_end addr len) (with_name name) (mname allocs addr len name)
unfolding mname
mname-Outcome allocs addr len name w aligned pos fits =
    update-Outcome (λ i. not (same_name i.name name)) (λ i. done (record i { name = name }))
      (λ i. record i { name = name }) (with_name name) (λ a. refl) (λ a. refl) (λ a. refl)
      (λ a. refl)
      (λ a same.
        ap (λ n. with_name n (page_of a)) (sym (same_name-eq a.name name (not-false _ same))))
      allocs addr len w aligned pos fits
