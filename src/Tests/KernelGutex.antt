-- ===== src/Tests/KernelGutex.antt =====
-- A thread reads one member of a group twice and writes another.
use obliteration.Prelude.{
  ◌+◌, ◌-◌, ◌≡◌, refl, [], ◌==◌, if◌then◌else◌, arith, done, panic, explicit, unfinished, not,
}
use obliteration.Kernel.Gutex.{
  usize_max, reading, writing, Group, new_group, lock_group, read, write, drop_group, after_drop,
  drop_guard, Reach, fresh, onward, reads, writes,
}
use obliteration.Kernel.Gutex.Counts.{readers, writers}
use obliteration.Kernel.Gutex.Exclusion.{IsGroup, Reach-IsGroup}
use obliteration.Kernel.Gutex.Outcomes.{taken, entered, read-Outcome, write-Outcome}

abbrev one : Group
one = entered 0x1000 1 reading 1 new_group

abbrev two : Group
two = entered 0x1000 2 writing usize_max one

reads_one : read 0x1000 1 new_group ≡ done one
unfolding read lock_group
reads_one = refl

writes_two : write 0x1000 2 one ≡ done two
unfolding write lock_group
writes_two = refl

reaches : Reach two
reaches = onward (onward fresh (reads 0x1000 1 refl reads_one)) (writes 0x1000 2 refl writes_two)

-- The last guard gives the group up, and comes to the `todo!()`.
drops_last :
    drop_guard (record { thread = 0x1000; member = 1; access = reading }) [] one ≡ panic unfinished
unfolding drop_guard drop_group after_drop
drops_last = refl

Reach-IsGroup_example : IsGroup two
Reach-IsGroup_example = Reach-IsGroup reaches

-- Reading again is fine, and writing what is read is not.
read-Outcome_example : read 0x1000 1 two ≡ (
    if taken 0x1000 two
    then panic unfinished
    else if not (writers two.guards 1 == 0)
    then panic explicit
    else if readers two.guards 1 == usize_max - 1
    then panic explicit
    else done (entered 0x1000 1 reading 2 two))
read-Outcome_example = read-Outcome 0x1000 1 two reaches (omega arith)

write-Outcome_example : write 0x1000 1 two ≡ (
    if taken 0x1000 two
    then panic unfinished
    else if readers two.guards 1 + writers two.guards 1 == 0
    then done (entered 0x1000 1 writing usize_max two)
    else panic explicit)
write-Outcome_example = write-Outcome 0x1000 1 two reaches (omega arith)

refuses : write 0x1000 1 two ≡ panic explicit
unfolding write lock_group
refuses = refl
