-- ===== src/Kernel/Gutex/Exclusion.antt =====
-- What the counts of a group and of its members are worth.
use obliteration.Prelude.{
  ℕ, suc, ◌+◌, ◌-◌, ◌≡◌, ◌≢◌, inl, inr, ◌<◌, refl, sym, ◌∙◌, ap, subst, true, false, not, List, [],
  ◌∷◌, ◌++◌, ◌==◌, if◌then◌else◌, arith, Bool-cases, done, bind-done, done-injective, if-done,
  if_not-done, add64-done, sub64-done, add64, sub64, explicit, unfinished,
}
use obliteration.Kernel.Gutex.{
  mtx_unowned, usize_max, Access, reading, writing, Guard, Group, new_group, set_member, lock_group,
  read, write, drop_group, after_drop, drop_guard, reads, writes, drops, Reach, fresh, onward,
}
use obliteration.Kernel.Gutex.Counts.{
  reads_of, writes_of, readers, writers, count, Owned, readers-without, writers-without,
  count-without, Owned-without,
}

-- The count of a member: its readers, or `usize::MAX` for a writer that is alone.
pub data Counted (n : ℕ) (r w : ℕ) : Type 0 where
  shared : n ≡ r → r < usize_max → w ≡ 0 → Counted n r w
  exclusive : n ≡ usize_max → r ≡ 0 → w ≡ 1 → Counted n r w

-- The group counts its guards, which all belong to the thread that owns it, and each member counts its own.
pub record IsGroup (g : Group) : Type 0 where
  pub total : g.active ≡ count g.guards
  pub owned : Owned g.owning g.guards
  pub unowned : (g.owning == mtx_unowned) ≡ true → g.guards ≡ []
  pub member : (m : ℕ) → Counted (g.members m) (readers g.guards m) (writers g.guards m)

new_group-IsGroup : IsGroup new_group
unfolding Owned count readers writers
new_group-IsGroup = record {
  total = refl;
  owned = tt;
  unowned = λ h. refl;
  member = λ m. shared refl (omega arith) refl;
}

-- The group that `lock_group` leaves: that of the thread, with room for one more guard.
record Locked (thread : ℕ) (g h : Group) : Type 0 where
  owner : h.owning ≡ thread
  more : h.active ≡ suc g.active
  members : h.members ≡ g.members
  guards : h.guards ≡ g.guards
  owned : Owned thread g.guards

IsGroup-Owned :
    (thread : ℕ) (g : Group)
    → IsGroup g
    → (if g.owning == mtx_unowned then true else g.owning == thread) ≡ true
    → Owned thread g.guards
unfolding Owned
IsGroup-Owned thread g i h = elim (Bool-cases (g.owning == mtx_unowned)) [
  | inl free ↦ subst (Owned thread) (sym (i.unowned free)) tt
  | inr taken ↦
      let e : g.owning ≡ thread = ground (arith, h, taken) in
      subst (λ t. Owned t g.guards) e i.owned
]

lock_group-Locked :
    (thread : ℕ) (g h : Group) → IsGroup g → lock_group thread g ≡ done h → Locked thread g h
unfolding lock_group
lock_group-Locked thread g h i k =
    let (mine, run) =
      if-done (if g.owning == mtx_unowned then true else g.owning == thread) _ unfinished k in
    let (n, room, last) = bind-done (add64 g.active 1) _ run in
    subst (Locked thread g) (done-injective last) (record {
      owner = refl;
      more = omega (arith, add64-done g.active 1 n room);
      members = refl;
      guards = refl;
      owned = IsGroup-Owned thread g i mine;
    })

-- One more reader, or the writer, of a member.
one_reader :
    (n r w : ℕ)
    → Counted n r w
    → (n == usize_max) ≡ false
    → (n == usize_max - 1) ≡ false
    → Counted (n + 1) (1 + r) w
one_reader n r w (shared e l z) h k = shared (omega arith) (ground (arith, h, k, e)) z
one_reader n r w (exclusive e z o) h k = ground (arith, h, e)

one_writer : (n r w : ℕ) → Counted n r w → (n == 0) ≡ true → Counted usize_max r (1 + w)
one_writer n r w (shared e l z) h = exclusive refl (ground (arith, h, e)) (omega arith)
one_writer n r w (exclusive e z o) h = ground (arith, h, e)

Counted-same : {n n' r r' w w' : ℕ} → n' ≡ n → r' ≡ r → w' ≡ w → Counted n r w → Counted n' r' w'
Counted-same a b c (shared e l z) = shared (a ∙ e ∙ sym b) (omega (arith, b, l)) (c ∙ z)
Counted-same a b c (exclusive e z o) = exclusive (a ∙ e) (b ∙ z) (c ∙ o)

-- The count of one member has changed, and so have the guards of that member alone.
members_after :
    (members : ℕ → ℕ) (m v : ℕ) (r w r' w' : ℕ → ℕ)
    → ((x : ℕ) → Counted (members x) (r x) (w x))
    → Counted v (r' m) (w' m)
    → ((x : ℕ) → (x == m) ≡ false → (r' x ≡ r x) × (w' x ≡ w x))
    → (x : ℕ) → Counted (set_member members m v x) (r' x) (w' x)
members_after members m v r w r' w' old here there x = elim (Bool-cases (x == m)) [
  | inl same ↦
      let e : x ≡ m = ground (arith, same) in
      Counted-same (ground (arith, same)) (ap r' e) (ap w' e) here
  | inr other ↦ Counted-same (ground (arith, other)) (there x other).0 (there x other).1 (old x)
]

reads_else :
    (m x : ℕ) (a : Access) → (x == m) ≡ false → (reads_of m a x ≡ 0) × (writes_of m a x ≡ 0)
unfolding reads_of writes_of
reads_else m x reading h = (ground (arith, h), refl)
reads_else m x writing h = (refl, ground (arith, h))

-- What a guard adds to the counts of its member.
abbrev reads_with : ℕ → Access → (ℕ → ℕ) → ℕ → ℕ
reads_with m a f x = reads_of m a x + f x

abbrev writes_with : ℕ → Access → (ℕ → ℕ) → ℕ → ℕ
writes_with m a f x = writes_of m a x + f x

with_else :
    (m : ℕ) (a : Access) (r w : ℕ → ℕ) (x : ℕ)
    → (x == m) ≡ false
    → (reads_with m a r x ≡ r x) × (writes_with m a w x ≡ w x)
with_else m a r w x h = let (e, f) = reads_else m x a h in (omega (arith, e), omega (arith, f))

reads_here :
    (m : ℕ)
    → (reads_of m reading m ≡ 1)
      × (writes_of m reading m ≡ 0)
      × (reads_of m writing m ≡ 0)
      × (writes_of m writing m ≡ 1)
unfolding reads_of writes_of
reads_here m = (ground arith, refl, refl, ground arith)

-- The group after a guard of `thread` is new.
joined :
    (thread m v : ℕ) (a : Access) (g l : Group)
    → (thread == mtx_unowned) ≡ false
    → IsGroup g
    → Locked thread g l
    → Counted v (reads_with m a (readers g.guards) m) (writes_with m a (writers g.guards) m)
    → IsGroup (record {
      owning = l.owning;
      active = l.active;
      members = set_member l.members m v;
      guards = record { thread = thread; member = m; access = a } ∷ l.guards;
    })
unfolding Owned count readers writers
joined thread m v a g l valid i at new = record {
  total = at.more ∙ ap suc (i.total ∙ ap count (sym at.guards));
  owned = (
    sym at.owner,
    subst (λ t. Owned t l.guards) (sym at.owner) (subst (Owned thread) (sym at.guards) at.owned),
  );
  unowned = λ e. cc (e, valid, at.owner);
  member = λ x.
      Counted-same (ap (λ f. set_member f m v x) at.members)
        (ap (λ t. reads_with m a (readers t) x) at.guards)
        (ap (λ t. writes_with m a (writers t) x) at.guards)
        (members_after g.members m v (readers g.guards) (writers g.guards)
          (reads_with m a (readers g.guards)) (writes_with m a (writers g.guards)) i.member new
          (with_else m a (readers g.guards) (writers g.guards)) x);
}

read-IsGroup :
    (thread m : ℕ) (g h : Group)
    → (thread == mtx_unowned) ≡ false
    → IsGroup g
    → read thread m g ≡ done h
    → IsGroup h
unfolding read
read-IsGroup thread m g h valid i k =
    let (l, locks, rest) = bind-done (lock_group thread g) _ k in
    let at = lock_group-Locked thread g l i locks in
    let (no_writer, rest2) = if_not-done (l.members m == usize_max) _ explicit rest in
    let (fits, last) = if_not-done (l.members m == usize_max - 1) _ explicit rest2 in
    let (one, none_, _, _) = reads_here m in
    let here : Counted (l.members m) (readers g.guards m) (writers g.guards m) =
      Counted-same (ap (λ f. f m) at.members) refl refl (i.member m) in
    subst IsGroup (done-injective last) (
      joined thread m (l.members m + 1) reading g l valid i at (
        Counted-same refl (omega (arith, one)) (omega (arith, none_))
          (one_reader (l.members m) (readers g.guards m) (writers g.guards m) here no_writer fits)))

write-IsGroup :
    (thread m : ℕ) (g h : Group)
    → (thread == mtx_unowned) ≡ false
    → IsGroup g
    → write thread m g ≡ done h
    → IsGroup h
unfolding write
write-IsGroup thread m g h valid i k =
    let (l, locks, rest) = bind-done (lock_group thread g) _ k in
    let at = lock_group-Locked thread g l i locks in
    let (idle, last) = if_not-done (not (l.members m == 0)) _ explicit rest in
    let (_, _, none_, one) = reads_here m in
    let here : Counted (l.members m) (readers g.guards m) (writers g.guards m) =
      Counted-same (ap (λ f. f m) at.members) refl refl (i.member m) in
    subst IsGroup (done-injective last) (
      joined thread m usize_max writing g l valid i at (
        Counted-same refl (omega (arith, none_)) (omega (arith, one)) (
          one_writer (l.members m) (readers g.guards m) (writers g.guards m) here
            (ground (arith, idle)))))

-- A member after one of its guards has gone.
one_less :
    (a : Access) (m n v r w : ℕ)
    → Counted n (reads_of m a m + r) (writes_of m a m + w)
    → after_drop a n ≡ done v
    → Counted v r w
unfolding after_drop
one_less reading m n v r w c h = elim c [
  | shared e l z ↦
      shared (omega (arith, sub64-done n 1 v h, reads_here m, e)) (omega (arith, l))
        (omega (arith, z))
  | exclusive e z o ↦ absurd (omega (arith, reads_here m, z))
]
one_less writing m n v r w c h = elim c [
  | shared e l z ↦ absurd (omega (arith, reads_here m, z))
  | exclusive e z o ↦
      shared (done-injective (sym h) ∙ omega (arith, z)) (omega (arith, z))
        (omega (arith, reads_here m, o))
]

without_none : (before after : List Guard) (guard : Guard) → (before ++ (guard ∷ after)) ≢ []
unfolding count
without_none before after guard f = omega (arith, ap count f, count-without before after guard)

drop_guard-IsGroup :
    (before after : List Guard) (guard : Guard) (g h : Group)
    → IsGroup g
    → g.guards ≡ before ++ (guard ∷ after)
    → drop_guard guard (before ++ after) g ≡ done h
    → IsGroup h
unfolding drop_guard drop_group
drop_guard-IsGroup before after guard g h i e k =
    let left = before ++ after in
    let (v, counts, rest) = bind-done (after_drop guard.access (g.members guard.member)) _ k in
    let (n, less, rest2) = bind-done (sub64 g.active 1) _ rest in
    let (_, last) = if-done (not (n == 0)) _ unfinished rest2 in
    let were : (x : ℕ)
        → Counted (g.members x) (reads_with guard.member guard.access (readers left) x)
            (writes_with guard.member guard.access (writers left) x) =
      λ x.
        Counted-same refl
          (sym (readers-without before after guard x) ∙ ap (λ t. readers t x) (sym e))
          (sym (writers-without before after guard x) ∙ ap (λ t. writers t x) (sym e))
          (i.member x) in
    subst IsGroup (done-injective last) (record {
      total = omega (
        arith,
        sub64-done g.active 1 n less,
        i.total,
        ap count e,
        count-without before after guard,
      );
      owned = Owned-without g.owning before after guard (subst (Owned g.owning) e i.owned);
      unowned = λ f. absurd (without_none before after guard (sym e ∙ i.unowned f));
      member =
          members_after g.members guard.member v
            (reads_with guard.member guard.access (readers left))
            (writes_with guard.member guard.access (writers left)) (readers left) (writers left)
            were
            (one_less guard.access guard.member (g.members guard.member) v
              (readers left guard.member) (writers left guard.member) (were guard.member) counts)
            (λ x o.
              let (p, q) = with_else guard.member guard.access (readers left) (writers left) x o in
              (sym p, sym q));
    })

-- In every state that threads get to by reading, writing and dropping guards in any order, the group counts
-- its guards, which all belong to the thread that owns it, and the count of each member says how many
-- guards read it, with none that writes it, or is `usize::MAX`, with one that writes it and none that
-- reads it.
pub Reach-IsGroup : {g : Group} → Reach g → IsGroup g
Reach-IsGroup fresh = new_group-IsGroup
Reach-IsGroup (onward {g = g} {h = h} r s) = elim s [
  | reads thread m valid run ↦ read-IsGroup thread m g h valid (Reach-IsGroup r) run
  | writes thread m valid run ↦ write-IsGroup thread m g h valid (Reach-IsGroup r) run
  | drops before after guard e run ↦
      drop_guard-IsGroup before after guard g h (Reach-IsGroup r) e run
]
