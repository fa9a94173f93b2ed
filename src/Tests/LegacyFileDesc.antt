-- ===== src/Tests/LegacyFileDesc.antt =====
-- A table of three descriptors, of which the second is free. A file is its flags.
use obliteration.Prelude.{
  ℕ, ◌+◌, ◌≡◌, ◌↔◌, refl, Option, none, some, List, [], ◌∷◌, arith, Result, ok, err, done, ◌>>=◌, ℤ,
  pos,
}
use obliteration.Legacy.FileDesc.{
  free_slot, install, alloc, alloc_without_budget, lacks, get_internal, get_for_write, free,
  bad_flags, write_flag,
}
use obliteration.Legacy.FileDesc.Table.{file_at, FirstFree}
use obliteration.Legacy.FileDesc.Laws.{
  Opened, Closed, Suffices, alloc-Opened, alloc_without_budget-alloc, get_internal_iff, free-Closed,
  free_again, free-alloc,
}

abbrev three : List (Option ℕ)
three = some 1 ∷ none ∷ some 3 ∷ []

abbrev opened : List (Option ℕ)
opened = some 1 ∷ some 2 ∷ some 3 ∷ []

abbrev own_flags : ℕ → ℕ
own_flags f = f

abbrev refuses : ℕ → Result ℕ ℕ
refuses fd = err (fd + 20)

opens : alloc three 2 ≡ done (1, opened)
unfolding alloc free_slot install
opens = refl

read_only : get_for_write own_flags three (pos 0) ≡ err (bad_flags write_flag 1)
unfolding get_for_write get_internal lacks
read_only = refl

closes : free opened (pos 1) ≡ ok three
unfolding free
closes = refl

alloc-Opened_example :
    (i : ℕ) × (after : List (Option ℕ)) × (alloc three 2 ≡ done (i, after)) × Opened three 2 i after
alloc-Opened_example = alloc-Opened three 2 (omega arith)

alloc_without_budget_once :
    (i : ℕ) × FirstFree three i
    × (alloc_without_budget three refuses ≡ elim (refuses i) [
      | err e ↦ done (err e, three)
      | ok file ↦ alloc three file >>= (λ r. done (ok r.0, r.1))
    ])
alloc_without_budget_once = alloc_without_budget-alloc three refuses (omega arith)

get_internal_iff_example : (get_internal own_flags three (pos 2) write_flag ≡ ok 3) ↔ (
    (i : ℕ) × (◌≡◌ {A = ℤ} (pos 2) (pos i))
    × (file_at three i ≡ some 3)
    × Suffices write_flag (own_flags 3))
get_internal_iff_example = get_internal_iff own_flags three (pos 2) write_flag 3

free-Closed_example : Closed own_flags opened (pos 1) three
free-Closed_example = free-Closed own_flags opened three (pos 1) closes

free_again_example : free three (pos 1) ≡ ok three
free_again_example = free_again opened three (pos 1) closes

free-alloc_example :
    (i : ℕ) × (now : List (Option ℕ)) × (after : List (Option ℕ)) × (alloc three 2 ≡ done (i, now))
    × (free now (pos i) ≡ ok after)
    × ((j : ℕ) → file_at after j ≡ file_at three j)
free-alloc_example = free-alloc three 2 (omega arith)
