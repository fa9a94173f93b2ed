-- ===== src/Kernel/Gutex.antt =====
-- kernel/src/lock/gutex: the mutex of a group of members, which counts the readers and the writer of each
-- member. The guards that are alive are a list; `thread` is the address of the thread that runs.
pub mod Counts
pub mod Exclusion
pub mod Outcomes
use obliteration.Prelude.{
  ℕ, ◌+◌, ◌-◌, ◌^◌, ◌≡◌, Bool, true, false, not, List, [], ◌∷◌, ◌++◌, ◌==◌, if◌then◌else◌, Flow,
  done, panic, ◌>>=◌, add64, sub64, explicit, unfinished,
}

abbrev pub mtx_unowned : ℕ
mtx_unowned = 4

-- `usize::MAX`.
abbrev pub usize_max : ℕ
usize_max = 2 ^ 64 - 1

-- A `GutexRead` or a `GutexWrite` that is alive: whose it is, and the member that it is for.
pub data Access : Type 0 where
  reading writing : Access

pub record Guard : Type 0 where
  pub thread : ℕ
  pub member : ℕ
  pub access : Access

-- The fields of `GutexGroup`, the `active` of each member, and the guards.
pub record Group : Type 0 where
  pub owning : ℕ
  pub active : ℕ
  pub members : ℕ → ℕ
  pub guards : List Guard

-- `GutexGroup::new`, with members that `spawn` has made.
abbrev pub new_group : Group
new_group = record { owning = mtx_unowned; active = 0; members = λ m. 0; guards = [] }

abbrev pub set_member : (ℕ → ℕ) → ℕ → ℕ → ℕ → ℕ
set_member members m v x = if x == m then v else members x

-- `GutexGroup::lock`, where `wait` has no body yet, with the count of `GroupGuard::new`.
unfoldable pub lock_group : ℕ → Group → Flow Group
lock_group thread g =
    if (if g.owning == mtx_unowned then true else g.owning == thread)
    then (add64 g.active 1 >>= λ n.
        done (record { owning = thread; active = n; members = g.members; guards = g.guards }))
    else panic unfinished

-- `Gutex::read` of member `m`.
unfoldable pub read : ℕ → ℕ → Group → Flow Group
read thread m g = lock_group thread g >>= λ h.
    if h.members m == usize_max
    then panic explicit
    else if h.members m == usize_max - 1
    then panic explicit
    else done (record {
      owning = h.owning;
      active = h.active;
      members = set_member h.members m (h.members m + 1);
      guards = record { thread = thread; member = m; access = reading } ∷ h.guards;
    })

-- `Gutex::write` of member `m`.
unfoldable pub write : ℕ → ℕ → Group → Flow Group
write thread m g = lock_group thread g >>= λ h.
    if not (h.members m == 0)
    then panic explicit
    else done (record {
      owning = h.owning;
      active = h.active;
      members = set_member h.members m usize_max;
      guards = record { thread = thread; member = m; access = writing } ∷ h.guards;
    })

-- `GroupGuard::drop`: `release` gives the group up, and then comes to its `todo!()`.
unfoldable pub drop_group : Group → Flow Group
drop_group g = sub64 g.active 1 >>= λ n.
    if not (n == 0)
    then done (record { owning = g.owning; active = n; members = g.members; guards = g.guards })
    else panic unfinished

-- The count of a member after `GutexRead::drop` or `GutexWrite::drop`.
unfoldable pub after_drop : Access → ℕ → Flow ℕ
after_drop reading n = sub64 n 1
after_drop writing n = done 0

-- A guard goes, and `left` are the guards that stay: first the count of its member, then its `lock`.
unfoldable pub drop_guard : Guard → List Guard → Group → Flow Group
drop_guard guard left g = after_drop guard.access (g.members guard.member) >>= λ n.
    drop_group (record {
      owning = g.owning;
      active = g.active;
      members = set_member g.members guard.member n;
      guards = left;
    })

-- What the threads do, in any order. No thread has the address that stands for no owner.
pub data Step : Group → Group → Type 0 where
  reads :
      {g h : Group} (thread m : ℕ)
      → (thread == mtx_unowned) ≡ false
      → read thread m g ≡ done h
      → Step g h
  writes :
      {g h : Group} (thread m : ℕ)
      → (thread == mtx_unowned) ≡ false
      → write thread m g ≡ done h
      → Step g h
  drops :
      {g h : Group} (before after : List Guard) (guard : Guard)
      → g.guards ≡ before ++ (guard ∷ after)
      → drop_guard guard (before ++ after) g ≡ done h
      → Step g h

pub data Reach : Group → Type 0 where
  fresh : Reach new_group
  onward : {g h : Group} → Reach g → Step g h → Reach h
