-- ===== src/Kernel/Gutex/Counts.antt =====
-- How many of the guards read and write a member.
use obliteration.Prelude.{
  ℕ, suc, ◌+◌, ◌≡◌, refl, ap, List, [], ◌∷◌, ◌++◌, ◌==◌, if◌then◌else◌, arith,
}
use obliteration.Kernel.Gutex.{Access, reading, writing, Guard}

-- 1 for a guard with this access to member `m`.
unfoldable pub reads_of : ℕ → Access → ℕ → ℕ
reads_of x reading m = if x == m then 1 else 0
reads_of x writing m = 0

unfoldable pub writes_of : ℕ → Access → ℕ → ℕ
writes_of x reading m = 0
writes_of x writing m = if x == m then 1 else 0

unfoldable pub readers : List Guard → ℕ → ℕ
readers [] m = 0
readers (g ∷ gs) m = reads_of g.member g.access m + readers gs m

unfoldable pub writers : List Guard → ℕ → ℕ
writers [] m = 0
writers (g ∷ gs) m = writes_of g.member g.access m + writers gs m

unfoldable pub count : List Guard → ℕ
count [] = 0
count (g ∷ gs) = suc (count gs)

-- All of the guards belong to one thread.
unfoldable pub Owned : ℕ → List Guard → Type 0
Owned thread [] = Unit
Owned thread (g ∷ gs) = (g.thread ≡ thread) × Owned thread gs

pub readers-without :
    (xs ys : List Guard) (g : Guard) (m : ℕ)
    → readers (xs ++ (g ∷ ys)) m ≡ reads_of g.member g.access m + readers (xs ++ ys) m
unfolding readers
readers-without [] ys g m = refl
readers-without (x ∷ xs) ys g m = omega (arith, readers-without xs ys g m)

pub writers-without :
    (xs ys : List Guard) (g : Guard) (m : ℕ)
    → writers (xs ++ (g ∷ ys)) m ≡ writes_of g.member g.access m + writers (xs ++ ys) m
unfolding writers
writers-without [] ys g m = refl
writers-without (x ∷ xs) ys g m = omega (arith, writers-without xs ys g m)

pub count-without :
    (xs ys : List Guard) (g : Guard) → count (xs ++ (g ∷ ys)) ≡ suc (count (xs ++ ys))
unfolding count
count-without [] ys g = refl
count-without (x ∷ xs) ys g = ap suc (count-without xs ys g)

pub Owned-without :
    (thread : ℕ) (xs ys : List Guard) (g : Guard)
    → Owned thread (xs ++ (g ∷ ys))
    → Owned thread (xs ++ ys)
unfolding Owned
Owned-without thread [] ys g h = h.1
Owned-without thread (x ∷ xs) ys g h = (h.0, Owned-without thread xs ys g h.1)
