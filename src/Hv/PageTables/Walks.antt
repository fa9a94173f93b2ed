-- ===== src/Hv/PageTables/Walks.antt =====
-- The ways through the tables that `map_page` makes, and how the processor reads them.
use obliteration.Prelude.{
  ℕ, ◌/◌, ◌%◌, ◌^◌, ◌≡◌, ◌≢◌, refl, sym, ◌∙◌, ap, false, ◌&&◌, ◌==◌, Option, none, some, arith,
  Bool-cases, inl, inr,
}
use obliteration.Hv.PageTables.{Tables, Builder, Context, Down, pml4o, pdpo, pdo, pto}
use obliteration.Hv.PageTables.Entries.{index_parts, same_indices}
use obliteration.Hv.PageTables.Links.{linked, opened, opened-linked, Flagged, bind, Level}
use obliteration.Hv.PageTables.Descend.{Descended, bind-same}

-- The physical page that the entries in use of four levels of tables give to an address.
unfoldable pub walk_in : Tables → Tables → Tables → Tables → ℕ → ℕ → Option ℕ
walk_in t4 t3 t2 t1 root v =
    bind (linked t4 root (pml4o v))
      λ p. bind (linked t3 p (pdpo v)) λ d. bind (linked t2 d (pdo v)) λ t. linked t1 t (pto v)

abbrev pub walk : Context → ℕ → Option ℕ
walk cx v = walk_in cx.pml4t cx.pdpt cx.pdt cx.pt cx.root v

-- The physical page to which the processor writes at an address, in supervisor mode: an entry of any level
-- counts only where its bits P and R/W are set. Without them it faults, so there is none.
unfoldable pub translate : Context → ℕ → Option ℕ
translate cx v = bind (opened cx.pml4t cx.root (pml4o v)) λ p.
    bind (opened cx.pdpt p (pdpo v)) λ d. bind (opened cx.pdt d (pdo v)) λ t. opened cx.pt t (pto v)

-- Every entry in use, on all levels, has the bits P and R/W.
pub record IsFlagged (cx : Context) : Type 0 where
  pub flags4 : Flagged cx.pml4t
  pub flags3 : Flagged cx.pdpt
  pub flags2 : Flagged cx.pdt
  pub flags1 : Flagged cx.pt

-- The tables of a builder: each entry in use stands for a table of its own.
pub record IsContext (cx : Context) (high : ℕ) : Type 0 where
  pub level4 : Level cx.pml4t cx.pdpt high
  pub level3 : Level cx.pdpt cx.pdt high
  pub level2 : Level cx.pdt cx.pt high

-- The page of an address that four indices cut out.
abbrev pub page_of : ℕ → ℕ
page_of v = v % 2 ^ 48 / 4096

-- The path to the entry of `addr`, once all four tables are there.
pub record PathTo (t4 t3 t2 : Tables) (root addr t : ℕ) : Type 0 where
  pub p : ℕ
  pub d : ℕ
  pub link4 : linked t4 root (pml4o addr) ≡ some p
  pub link3 : linked t3 p (pdpo addr) ≡ some d
  pub link2 : linked t2 d (pdo addr) ≡ some t

module _ (t4 t3 t2 : Tables) (root addr t : ℕ) (path : PathTo t4 t3 t2 root addr t) where
  pub walk_in-path : (t1 : Tables) → walk_in t4 t3 t2 t1 root addr ≡ linked t1 t (pto addr)
  unfolding walk_in
  walk_in-path t1 =
      ap
        (λ o. bind o λ p.
          bind (linked t3 p (pdpo addr))
            λ d. bind (linked t2 d (pdo addr)) λ t. linked t1 t (pto addr))
        path.link4
      ∙ ap (λ o. bind o λ d. bind (linked t2 d (pdo addr)) λ t. linked t1 t (pto addr)) path.link3
      ∙ ap (λ o. bind o λ t. linked t1 t (pto addr)) path.link2

  -- Only the addresses of the page get to its entry.
  module _ (n : ℕ) (t1 t1' : Tables) (l4 : Level t4 t3 n) (l3 : Level t3 t2 n) (l2 : Level t2 t1 n)
      (rest : (x j : ℕ)
        → (x == t) && (j == pto addr) ≡ false
        → linked t1' x j ≡ linked t1 x j) where
    bind-cases :
        (o : Option ℕ) (f g : ℕ → Option ℕ)
        → ((c : ℕ) → o ≡ some c → f c ≡ g c)
        → bind o f ≡ bind o g
    bind-cases none f g h = refl
    bind-cases (some c) f g h = h c refl

    same_page :
        (v p d : ℕ)
        → linked t4 root (pml4o v) ≡ some p
        → linked t3 p (pdpo v) ≡ some d
        → linked t2 d (pdo v) ≡ some t
        → pto v ≡ pto addr
        → page_of v ≡ page_of addr
    same_page v p d h k m e =
        let (d_eq, i2) = l2.single d (pdo v) path.d (pdo addr) t m path.link2 in
        let (p_eq, i3) =
          l3.single p (pdpo v) path.p (pdpo addr) d k (path.link3 ∙ ap some (sym d_eq)) in
        let (_, i4) =
          l4.single root (pml4o v) root (pml4o addr) p h (path.link4 ∙ ap some (sym p_eq)) in
        index_parts v addr i4 i3 i2 e

    pub walk_in-else :
        (v : ℕ)
        → page_of v ≢ page_of addr
        → walk_in t4 t3 t2 t1' root v ≡ walk_in t4 t3 t2 t1 root v
    unfolding walk_in
    walk_in-else v other = bind-cases (linked t4 root (pml4o v)) _ _ λ p h.
        bind-cases (linked t3 p (pdpo v)) _ _ λ d k. bind-cases (linked t2 d (pdo v)) _ _ λ x m.
          elim (Bool-cases ((x == t) && (pto v == pto addr))) [
            | inr elsewhere ↦ rest x (pto v) elsewhere
            | inl reached ↦
                let x_eq : x ≡ t = ground arith in
                absurd (other (same_page v p d h k (m ∙ ap some x_eq) (ground arith)))
          ]

one_level :
    (upper lower : Tables) (a i : ℕ) (b : Builder) (d : Down)
    → Descended upper lower a i b d
    → (x j k : ℕ) (f : Option ℕ → Option ℕ) → f none ≡ none
    → bind (linked d.upper x j) (λ c. f (linked d.lower c k))
      ≡ bind (linked upper x j) (λ c. f (linked lower c k))
one_level upper lower a i b d at x j k f h =
    bind-same (linked d.upper x j) (linked d.upper x j) _ _ refl (λ c. ap f (at.below c k))
    ∙ at.walks x j (λ c. f (linked lower c k)) (λ c g. ap f (g k) ∙ h)

-- The three tables above a page, one after the other: no walk has changed.
module _ (cx : Context) (addr : ℕ) (b : Builder) (d3 d2 d1 : Down)
    (at4 : Descended cx.pml4t cx.pdpt cx.root (pml4o addr) b d3)
    (at3 : Descended d3.lower cx.pdt d3.child (pdpo addr) d3.builder d2)
    (at2 : Descended d2.lower cx.pt d2.child (pdo addr) d2.builder d1) where
  step4 : (v : ℕ) → walk_in d3.upper d3.lower cx.pdt cx.pt cx.root v ≡ walk cx v
  unfolding walk_in
  step4 v =
      one_level cx.pml4t cx.pdpt cx.root (pml4o addr) b d3 at4 cx.root (pml4o v) (pdpo v)
        (λ o. bind o λ d. bind (linked cx.pdt d (pdo v)) λ t. linked cx.pt t (pto v)) refl

  step3 :
      (v : ℕ)
      → walk_in d3.upper d2.upper d2.lower cx.pt cx.root v
        ≡ walk_in d3.upper d3.lower cx.pdt cx.pt cx.root v
  unfolding walk_in
  step3 v = bind-same (linked d3.upper cx.root (pml4o v)) _ _ _ refl λ p.
      one_level d3.lower cx.pdt d3.child (pdpo addr) d3.builder d2 at3 p (pdpo v) (pdo v)
        (λ o. bind o λ t. linked cx.pt t (pto v)) refl

  step2 :
      (v : ℕ)
      → walk_in d3.upper d2.upper d1.upper d1.lower cx.root v
        ≡ walk_in d3.upper d2.upper d2.lower cx.pt cx.root v
  unfolding walk_in
  step2 v = bind-same (linked d3.upper cx.root (pml4o v)) _ _ _ refl λ p.
      bind-same (linked d2.upper p (pdpo v)) _ _ _ refl λ d.
        one_level d2.lower cx.pt d2.child (pdo addr) d2.builder d1 at2 d (pdo v) (pto v) (λ o. o)
          refl

  pub steps_same : (v : ℕ) → walk_in d3.upper d2.upper d1.upper d1.lower cx.root v ≡ walk cx v
  steps_same v = step2 v ∙ step3 v ∙ step4 v

pub walk_in-same_page : (cx : Context) (v w : ℕ) → page_of v ≡ page_of w → walk cx v ≡ walk cx w
unfolding walk_in
walk_in-same_page cx v w h =
    let (i4, i3, i2, i1) = same_indices v w h in
    bind-same (linked cx.pml4t cx.root (pml4o v)) _ _ _ (ap (linked cx.pml4t cx.root) i4) λ p.
      bind-same (linked cx.pdpt p (pdpo v)) _ _ _ (ap (linked cx.pdpt p) i3) λ d.
        bind-same (linked cx.pdt d (pdo v)) _ _ _ (ap (linked cx.pdt d) i2)
          λ t. ap (linked cx.pt t) i1

-- Then the processor finds what the entries in use give.
pub translate-walk : (cx : Context) → IsFlagged cx → (v : ℕ) → translate cx v ≡ walk cx v
unfolding translate walk_in
translate-walk cx f v =
    bind-same (opened cx.pml4t cx.root (pml4o v)) _ _ _
      (opened-linked cx.pml4t cx.root (pml4o v) f.flags4)
      λ p.
        bind-same (opened cx.pdpt p (pdpo v)) _ _ _ (opened-linked cx.pdpt p (pdpo v) f.flags3) λ d.
          bind-same (opened cx.pdt d (pdo v)) _ _ _ (opened-linked cx.pdt d (pdo v) f.flags2)
            λ t. opened-linked cx.pt t (pto v) f.flags1
