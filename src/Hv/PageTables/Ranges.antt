-- ===== src/Hv/PageTables/Ranges.antt =====
-- What `setup_4k_page_tables` does to the translation of addresses, for all of the pages of a range.
use obliteration.Prelude.{
  ℕ, zero, suc, ◌+◌, ◌*◌, ◌/◌, ◌%◌, ◌^◌, ◌≡◌, ◌≢◌, ◌<◌, ◌≤◌, refl, ◌∙◌, ap, Bool, ◌==◌, none, some,
  arith, Bool-cases, Option-cases, inl, inr, subst, done, ok, assert, ◌>>◌, bind-done,
  and_then_ok-done, ok-injective, add64, add64-done, sym,
}
use obliteration.Hv.Ram.{Ram}
use obliteration.Hv.PageTables.{Builder, Context, map_page, map_pages, setup_4k_page_tables}
use obliteration.Hv.PageTables.Descend.{Builds}
use obliteration.Hv.PageTables.Walks.{
  walk, translate, IsContext, IsFlagged, page_of, walk_in-same_page,
}
use obliteration.Hv.PageTables.Pages.{Mapped, map_page-Mapped}

module _ (commit map : ℕ → ℕ → Bool) (r : Ram) where
  -- The entries in use lead from `n` pages from `vaddr` on to those from `paddr` on. What they led to before
  -- they lead to still, and no other page has changed.
  pub record WalkedRange (n : ℕ) (cx : Context) (vaddr paddr : ℕ) (s : Context × Builder)
      : Type 0 where
    pub now : (k : ℕ) → k < n → walk s.0 (vaddr + k * 4096) ≡ some (paddr + k * 4096)
    pub free : (k : ℕ) → k < n → walk cx (vaddr + k * 4096) ≡ none
    pub keeps : (v q : ℕ) → walk cx v ≡ some q → walk s.0 v ≡ some q
    pub others :
        (v : ℕ)
        → ((k : ℕ) → k < n → page_of v ≢ page_of (vaddr + k * 4096))
        → walk s.0 v ≡ walk cx v
    pub tables : IsContext s.0 s.1.next
    pub flags : IsFlagged cx → IsFlagged s.0
    pub builds : Builds r s.1

  module _ (cx : Context) (vaddr paddr : ℕ) (s : Context × Builder)
      (m : Mapped commit map r cx vaddr paddr s) where
    kept : (v q : ℕ) → walk cx v ≡ some q → walk s.0 v ≡ some q
    kept v q h = elim (Bool-cases (page_of v == page_of vaddr)) [
      | inr other ↦ m.others v (λ e. ground (arith, other, e)) ∙ h
      | inl same ↦ cc (h, m.free, walk_in-same_page cx v vaddr (ground (arith, same)))
    ]

    was_free : (v : ℕ) → walk s.0 v ≡ none → walk cx v ≡ none
    was_free v h = elim (Option-cases (walk cx v)) [
      | inl gone ↦ gone
      | inr q ↦ cc (h, kept v q.0 q.1)
    ]

    map_more :
        (n : ℕ) (t : Context × Builder)
        → WalkedRange n s.0 (vaddr + 4096) (paddr + 4096) t
        → WalkedRange (suc n) cx vaddr paddr t
    map_more n t l = record {
      now = now;
      free = free;
      keeps = λ v q h. l.keeps v q (kept v q h);
      others = λ v h.
          l.others v (λ k b e. h (suc k) (omega arith) (e ∙ ap page_of (omega arith)))
          ∙ m.others v (λ e. h 0 (omega arith) (e ∙ ap page_of (omega arith)));
      tables = l.tables;
      flags = λ f. l.flags (m.flags f);
      builds = l.builds;
    }
      where
        now : (k : ℕ) → k < suc n → walk t.0 (vaddr + k * 4096) ≡ some (paddr + k * 4096)
        now zero b = ap (walk t.0) (omega arith) ∙ l.keeps vaddr paddr m.now ∙ ap some (omega arith)
        now (suc k) b = ap (walk t.0) (omega arith) ∙ l.now k (omega arith) ∙ ap some (omega arith)

        free : (k : ℕ) → k < suc n → walk cx (vaddr + k * 4096) ≡ none
        free zero b = ap (walk cx) (omega arith) ∙ m.free
        free (suc k) b =
            ap (walk cx) (omega arith) ∙ was_free (vaddr + 4096 + k * 4096) (l.free k (omega arith))

  add64-below : (a b : ℕ) → a + b < 2 ^ 64 → add64 a b ≡ done (a + b)
  add64-below a b h = ground arith

  moved :
      (n v w p q : ℕ) (cx : Context) (s : Context × Builder)
      → v ≡ w
      → p ≡ q
      → WalkedRange n cx v p s
      → WalkedRange n cx w q s
  moved n v w p q cx s h k m =
      subst (λ t. WalkedRange n cx t q s) h (subst (λ t. WalkedRange n cx v t s) k m)

  map_pages-WalkedRange :
      (n : ℕ) (cx : Context) (b : Builder) (vaddr paddr off : ℕ) (s : Context × Builder)
      → Builds r b
      → IsContext cx b.next
      → paddr + off + n * 4096 ≤ 2 ^ 63
      → map_pages commit map r n cx b vaddr paddr off ≡ done (ok s)
      → WalkedRange n cx (vaddr + off) (paddr + off) s
  unfolding map_pages
  map_pages-WalkedRange zero cx b vaddr paddr off s g c below h =
      subst (WalkedRange 0 cx (vaddr + off) (paddr + off)) (ok-injective h) (record {
        now = λ k l. absurd (omega arith);
        free = λ k l. absurd (omega arith);
        keeps = λ v q k. k;
        others = λ v k. refl;
        tables = c;
        flags = λ f. f;
        builds = g;
      })
  map_pages-WalkedRange (suc n) cx b vaddr paddr off s g c below h =
      let (addr, added, run) = bind-done (add64 vaddr off) _ h in
      let (t, first, rest) =
        and_then_ok-done (map_page commit map r cx b addr (add64 paddr off)) _ run in
      let page : add64 paddr off ≡ done (paddr + off) =
        add64-below paddr off (omega (arith, below)) in
      let m =
        map_page-Mapped commit map r cx b (vaddr + off) (paddr + off) t g c (omega (arith, below)) (
          ap (λ f. map_page commit map r cx b (vaddr + off) f) (sym page)
          ∙ ap (λ a. map_page commit map r cx b a (add64 paddr off))
              (sym (add64-done vaddr off addr added))
          ∙ first) in
      map_more cx (vaddr + off) (paddr + off) t m n s (
        moved n (vaddr + (off + 4096)) (vaddr + off + 4096) (paddr + (off + 4096))
          (paddr + off + 4096) t.0 s (omega arith) (omega arith)
          (map_pages-WalkedRange n t.0 t.1 vaddr paddr (off + 4096) s m.builds m.tables
            (omega (arith, below)) rest))

  pub setup_4k_page_tables-WalkedRange :
      (cx : Context) (b : Builder) (vaddr paddr len : ℕ) (s : Context × Builder)
      → Builds r b
      → IsContext cx b.next
      → paddr + len ≤ 2 ^ 63
      → setup_4k_page_tables commit map r cx b vaddr paddr len ≡ done (ok s)
      → WalkedRange (len / 4096) cx vaddr paddr s
  unfolding setup_4k_page_tables
  setup_4k_page_tables-WalkedRange cx b vaddr paddr len s g c below h =
      let checks =
        assert (vaddr % 4096 == 0) >> assert (paddr % 4096 == 0) >> assert (len % 4096 == 0) in
      let (_, _, run) = bind-done checks _ h in
      moved (len / 4096) (vaddr + 0) vaddr (paddr + 0) paddr cx s (omega arith) (omega arith)
        (map_pages-WalkedRange (len / 4096) cx b vaddr paddr 0 s g c (omega arith) run)

  -- The processor writes to `n` pages from `paddr` on by those from `vaddr` on, none of which it could write to
  -- before. What was mapped before is mapped to the same still, and no other page has changed.
  pub record MappedRange (n : ℕ) (cx : Context) (vaddr paddr : ℕ) (s : Context × Builder)
      : Type 0 where
    pub now : (k : ℕ) → k < n → translate s.0 (vaddr + k * 4096) ≡ some (paddr + k * 4096)
    pub free : (k : ℕ) → k < n → translate cx (vaddr + k * 4096) ≡ none
    pub keeps : (v q : ℕ) → translate cx v ≡ some q → translate s.0 v ≡ some q
    pub others :
        (v : ℕ)
        → ((k : ℕ) → k < n → page_of v ≢ page_of (vaddr + k * 4096))
        → translate s.0 v ≡ translate cx v
    pub tables : IsContext s.0 s.1.next
    pub flags : IsFlagged s.0
    pub builds : Builds r s.1
