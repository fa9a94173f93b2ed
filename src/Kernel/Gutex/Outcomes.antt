-- ===== src/Kernel/Gutex/Outcomes.antt =====
-- What `read` and `write` come to, told from the guards that are alive.
use obliteration.Prelude.{
  ℕ, ◌+◌, ◌-◌, ◌^◌, ◌≡◌, ◌<◌, refl, sym, Bool, true, false, not, ◌&&◌, ◌∷◌, ◌==◌, if◌then◌else◌,
  arith, Bool-cases, inl, inr, Flow, done, panic, explicit, unfinished,
}
use obliteration.Kernel.Gutex.{
  mtx_unowned, usize_max, Access, reading, writing, Group, set_member, lock_group, read, write,
  Reach,
}
use obliteration.Kernel.Gutex.Counts.{readers, writers}
use obliteration.Kernel.Gutex.Exclusion.{Counted, shared, exclusive, Reach-IsGroup}

-- Another thread has the group.
abbrev pub taken : ℕ → Group → Bool
taken thread g = not (g.owning == mtx_unowned) && not (g.owning == thread)

-- The group with one more guard, and `v` as the count of its member.
abbrev pub entered : ℕ → ℕ → Access → ℕ → Group → Group
entered thread m a v g = record {
  owning = thread;
  active = g.active + 1;
  members = set_member g.members m v;
  guards = record { thread = thread; member = m; access = a } ∷ g.guards;
}

abbrev mine : ℕ → Group → Group
mine thread g = record {
  owning = thread;
  active = g.active + 1;
  members = g.members;
  guards = g.guards;
}

lock_group-taken :
    (thread : ℕ) (g : Group) → taken thread g ≡ true → lock_group thread g ≡ panic unfinished
unfolding lock_group
lock_group-taken thread g h = ground (arith, h)

lock_group-mine :
    (thread : ℕ) (g : Group)
    → taken thread g ≡ false
    → g.active + 1 < 2 ^ 64
    → lock_group thread g ≡ done (mine thread g)
unfolding lock_group
lock_group-mine thread g h k = ground (arith, h, k)

-- The count of a member is as its guards have it.
idle_count : (n r w : ℕ) → Counted n r w → (n == 0) ≡ (r + w == 0)
idle_count n r w (shared e l z) = ground (arith, e, l, z)
idle_count n r w (exclusive e z o) = ground (arith, e, z, o)

written_count : (n r w : ℕ) → Counted n r w → (n == usize_max) ≡ not (w == 0)
written_count n r w (shared e l z) = ground (arith, e, l, z)
written_count n r w (exclusive e z o) = ground (arith, e, z, o)

full_count : (n r w : ℕ) → Counted n r w → (n == usize_max - 1) ≡ (r == usize_max - 1)
full_count n r w (shared e l z) = ground (arith, e)
full_count n r w (exclusive e z o) = ground (arith, e, z)

if_not : (b : Bool) (x y : Flow Group) → (if not b then x else y) ≡ (if b then y else x)
if_not true x y = refl
if_not false x y = refl

module _ (thread m : ℕ) (g : Group) (reached : Reach g) (room : g.active + 1 < 2 ^ 64) where
  counted : Counted (g.members m) (readers g.guards m) (writers g.guards m)
  counted = (Reach-IsGroup reached).member m

  -- `write` in any state that the threads can get to, with room for one more guard: it waits for a group of
  -- another thread, which the source does not do yet, it panics if any guard reads or writes the member,
  -- and else it gives a guard and marks the member with `usize::MAX`.
  pub write-Outcome : write thread m g ≡ (
      if taken thread g
      then panic unfinished
      else if readers g.guards m + writers g.guards m == 0
      then done (entered thread m writing usize_max g)
      else panic explicit)
  unfolding write
  write-Outcome = elim (Bool-cases (taken thread g)) [
    | inl other ↦ rw (lock_group-taken thread g other, other) refl
    | inr own ↦
        rw (lock_group-mine thread g own room, own, sym (idle_count _ _ _ counted))
          (if_not (g.members m == 0) _ _)
  ]

  -- `read` likewise: a group of another thread, a member that a guard writes, a member with as many readers
  -- as there can be, and else one reader more. Readers of the thread itself are in nobody's way.
  pub read-Outcome : read thread m g ≡ (
      if taken thread g
      then panic unfinished
      else if not (writers g.guards m == 0)
      then panic explicit
      else if readers g.guards m == usize_max - 1
      then panic explicit
      else done (entered thread m reading (g.members m + 1) g))
  unfolding read
  read-Outcome = elim (Bool-cases (taken thread g)) [
    | inl other ↦ rw (lock_group-taken thread g other, other) refl
    | inr own ↦
        rw
          (
            lock_group-mine thread g own room,
            own,
            sym (written_count _ _ _ counted),
            sym (full_count _ _ _ counted),
          )
          refl
  ]
