-- ===== src/Hv/Build/Mappings.antt =====
-- What the finished page tables map.
use obliteration.Prelude.{
  ℕ, ◌+◌, ◌-◌, ◌*◌, ◌/◌, ◌^◌, ◌≡◌, ◌<◌, ◌≤◌, refl, ◌∙◌, Bool, Option, none, some, List, [], ◌∷◌,
}
use obliteration.Hv.Ram.{Ram}
use obliteration.Hv.PageTables.{Tables, Builder, Context, insert_table}
use obliteration.Hv.PageTables.Links.{
  linked, Level, linked-absent, linked-insert_table, has-absent, Flagged, insert_table-Flagged,
}
use obliteration.Hv.PageTables.Descend.{Builds}
use obliteration.Hv.PageTables.Walks.{walk, IsContext, IsFlagged}
use obliteration.Hv.Build.{AllocInfo, no_tables, first_context}

-- The length of a range in whole pages.
abbrev pub whole_pages : Ram → AllocInfo → ℕ
whole_pages r info = (info.len + (r.vm_page_size - 1)) / r.vm_page_size * r.vm_page_size

-- By the translation `at`, each page of a range stands for the physical page at the same offset.
abbrev pub IsMapped : Ram → (ℕ → Option ℕ) → AllocInfo → Type 0
IsMapped r at info =
    (k : ℕ)
    → k < whole_pages r info / 4096
    → at (info.vaddr + k * 4096) ≡ some (info.paddr + k * 4096)

pub AllMapped : Ram → (ℕ → Option ℕ) → List AllocInfo → Type 0
AllMapped r at [] = Unit
AllMapped r at (info ∷ rest) = IsMapped r at info × AllMapped r at rest

-- The ranges end below 2 ^ 63.
unfoldable pub AllBelow : Ram → List AllocInfo → Type 0
AllBelow r [] = Unit
AllBelow r (info ∷ rest) = (info.paddr + whole_pages r info ≤ 2 ^ 63) × AllBelow r rest

module _ (commit map : ℕ → ℕ → Bool) (r : Ram) where
  -- Some ranges are mapped, and what was mapped is still.
  record Extended (infos : List AllocInfo) (cx : Context) (s : Context × Builder) : Type 0 where
    all : AllMapped r (walk s.0) infos
    keeps : (v q : ℕ) → walk cx v ≡ some q → walk s.0 v ≡ some q
    tables : IsContext s.0 s.1.next
    flags : IsFlagged cx → IsFlagged s.0
    builds : Builds r s.1

  no_links-Level :
      (tables : Tables) (high : ℕ)
      → ((x j : ℕ) → linked tables x j ≡ none)
      → Level tables no_tables high
  no_links-Level tables high h = record {
    whole = λ x j c k. cc (h x j, k);
    single = λ x j y k c l m. cc (h x j, l);
    fresh = λ c k. cc (k, has-absent no_tables c refl);
  }

  nothing : (x j : ℕ) → linked no_tables x j ≡ none
  nothing x j = linked-absent no_tables x j refl

  pub first_context-IsContext : (root high : ℕ) → IsContext (first_context root) high
  first_context-IsContext root high = record {
    level4 =
        no_links-Level (insert_table no_tables root) high
          λ x j. linked-insert_table no_tables root x j refl ∙ nothing x j;
    level3 = no_links-Level no_tables high nothing;
    level2 = no_links-Level no_tables high nothing;
  }

  pub first_context-IsFlagged : (root : ℕ) → IsFlagged (first_context root)
  unfolding Flagged
  first_context-IsFlagged root = record {
    flags4 = insert_table-Flagged no_tables root (λ x. tt);
    flags3 = λ x. tt;
    flags2 = λ x. tt;
    flags1 = λ x. tt;
  }
