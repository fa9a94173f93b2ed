-- ===== src/Prelude/Panics.antt =====
-- What a call of the source comes to: a value, or a panic that ends the program.
-- Arithmetic that leaves the range of its type is the panic of a build with overflow checks.
use Prim.Native.Nat.{ℕ, ◌+◌, ◌-◌, ◌^◌}
use mathlib.Core.Path.{◌≡◌, refl, sym, subst}
use mathlib.Core.Logic.{◌⊎◌, inl, inr}
use mathlib.Core.Bool.{Bool, true, false}
use mathlib.Core.Option.{Option, none, some}
use mathlib.Core.List.{List}
use obliteration.Prelude.Tests.{ltb, leb, if◌then◌else◌}
use obliteration.Prelude.Lists.{get_elem?}

-- `unfinished` is the source's `todo!()`, `explicit` its `panic!` and `unreachable!`; `stalled` is no panic
-- of the source: a loop of the model ran out of rounds.
pub data Panic : Type 0 where
  overflow out_of_bounds assertion unwrap_none explicit unfinished stalled : Panic

pub data Flow {ℓ} (A : Type ℓ) : Type ℓ where
  done : A → Flow A
  panic : Panic → Flow A

infixl 5 ◌>>=◌ ◌>>◌
abbrev pub ◌>>=◌ {ℓ κ} : {A : Type ℓ} {B : Type κ} → Flow A → (A → Flow B) → Flow B
done a >>= f = f a
panic e >>= f = panic e

abbrev pub ◌>>◌ {ℓ} : {B : Type ℓ} → Flow (Unit {0}) → Flow B → Flow B
m >> k = m >>= λ _. k

abbrev pub assert : Bool → Flow (Unit {0})
assert true = done tt
assert false = panic assertion

-- A 64-bit `a + b` and `a - b`.
abbrev pub add64 : ℕ → ℕ → Flow ℕ
add64 a b = if ltb (a + b) (2 ^ 64) then done (a + b) else panic overflow

abbrev pub sub64 : ℕ → ℕ → Flow ℕ
sub64 a b = if leb b a then done (a - b) else panic overflow

-- A 32-bit `a + b`.
abbrev pub add32 : ℕ → ℕ → Flow ℕ
add32 a b = if ltb (a + b) (2 ^ 32) then done (a + b) else panic overflow

-- `checked_add` on a 64-bit number.
abbrev pub checked_add : ℕ → ℕ → Option ℕ
checked_add a b = if ltb (a + b) (2 ^ 64) then some (a + b) else none

-- `xs[i]`.
abbrev pub index {ℓ} : {A : Type ℓ} → List A → ℕ → Flow A
index xs i = elim (get_elem? xs i) [ none ↦ panic out_of_bounds | some a ↦ done a ]

-- What holds of the value, if there is one.
abbrev pub Ensures {ℓ κ} : {A : Type ℓ} → (A → Type κ) → Flow A → Type κ
Ensures P (done a) = P a
Ensures P (panic e) = Unit

pub Ensures-bind {ℓ κ μ} :
    {A : Type ℓ} {B : Type κ} (P : B → Type μ) (m : Flow A) (f : A → Flow B)
    → ((a : A) → m ≡ done a → Ensures P (f a))
    → Ensures P (m >>= f)
Ensures-bind P (done a) f h = h a refl
Ensures-bind P (panic e) f h = tt

pub Ensures-done {ℓ κ} :
    {A : Type ℓ} (P : A → Type κ) (m : Flow A) {a : A} → Ensures P m → m ≡ done a → P a
Ensures-done P (done b) h e = subst P (cc) h
Ensures-done P (panic e) h k = cc

-- The source's `Result`.
pub data Result (A E : Type 0) : Type 0 where
  ok : A → Result A E
  err : E → Result A E

pub Flow-cases {ℓ} :
    {A : Type ℓ} (m : Flow A) → ((e : Panic) × (m ≡ panic e)) ⊎ ((a : A) × (m ≡ done a))
Flow-cases (done a) = inr (a, refl)
Flow-cases (panic e) = inl (e, refl)

-- `?` on a call that may also panic.
abbrev pub and_then_ok :
    {A B E : Type 0} → Flow (Result A E) → (A → Flow (Result B E)) → Flow (Result B E)
and_then_ok m f = m >>= λ r. elim r [ ok a ↦ f a | err e ↦ done (err e) ]

-- `map_err`.
abbrev pub map_err : {A E F : Type 0} → (E → F) → Flow (Result A E) → Flow (Result A F)
map_err f m = m >>= λ r. elim r [ ok a ↦ done (ok a) | err e ↦ done (err (f e)) ]

-- What has ended well has done so in each of its parts.
pub bind-done {ℓ κ} :
    {A : Type ℓ} {B : Type κ} (m : Flow A) (f : A → Flow B) {b : B}
    → (m >>= f) ≡ done b
    → (a : A) × (m ≡ done a) × (f a ≡ done b)
bind-done (done a) f h = (a, refl, h)
bind-done (panic e) f h = cc h

pub assert-done {ℓ} :
    {B : Type ℓ} (c : Bool) (k : Flow B) {b : B}
    → (assert c >> k) ≡ done b
    → (c ≡ true) × (k ≡ done b)
assert-done true k h = (refl, h)
assert-done false k h = cc h

pub and_then_ok-done :
    {A B E : Type 0} (m : Flow (Result A E)) (f : A → Flow (Result B E)) {b : B}
    → and_then_ok m f ≡ done (ok b)
    → (a : A) × (m ≡ done (ok a)) × (f a ≡ done (ok b))
and_then_ok-done (done (ok a)) f h = (a, refl, h)
and_then_ok-done (done (err e)) f h = cc h
and_then_ok-done (panic e) f h = cc h

pub map_err-done :
    {A E F : Type 0} (f : E → F) (m : Flow (Result A E)) {a : A}
    → map_err f m ≡ done (ok a)
    → m ≡ done (ok a)
map_err-done f (done (ok a)) h = cc h
map_err-done f (done (err e)) h = cc h
map_err-done f (panic e) h = cc h

pub ok-injective :
    {A E : Type 0} {a b : A} → ◌≡◌ {A = Flow (Result A E)} (done (ok a)) (done (ok b)) → a ≡ b
ok-injective h = cc h

pub done-injective {ℓ} : {A : Type ℓ} {a b : A} → ◌≡◌ {A = Flow A} (done a) (done b) → a ≡ b
done-injective h = cc h

pub if-done {ℓ} :
    {A : Type ℓ} (c : Bool) (m : Flow A) (e : Panic) {a : A}
    → (if c then m else panic e) ≡ done a
    → (c ≡ true) × (m ≡ done a)
if-done true m e h = (refl, h)
if-done false m e h = cc h

pub if_not-done {ℓ} :
    {A : Type ℓ} (c : Bool) (m : Flow A) (e : Panic) {a : A}
    → (if c then panic e else m) ≡ done a
    → (c ≡ false) × (m ≡ done a)
if_not-done true m e h = cc h
if_not-done false m e h = (refl, h)

pub add64-done : (a b c : ℕ) → add64 a b ≡ done c → c ≡ a + b
add64-done a b c h =
    done-injective (sym (if-done (ltb (a + b) (2 ^ 64)) (done (a + b)) overflow h).1)

pub sub64-done : (a b c : ℕ) → sub64 a b ≡ done c → (leb b a ≡ true) × (c ≡ a - b)
sub64-done a b c h =
    let (le, e) = if-done (leb b a) (done (a - b)) overflow h in (le, done-injective (sym e))
