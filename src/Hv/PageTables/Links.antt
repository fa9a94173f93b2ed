-- ===== src/Hv/PageTables/Links.antt =====
-- What a level of page tables refers to: the addresses in its entries.
use obliteration.Prelude.{
  ℕ, ◌≡◌, ◌<◌, ◌≤◌, refl, sym, ◌∙◌, ap, Bool, true, false, ◌&&◌, ◌==◌, Option, none, some, arith,
  if◌then◌else◌, Bool-cases, inl, inr, ◌⊎◌, ◌%◌, subst,
}
use obliteration.Hv.PageTables.{Table, Tables, zero_table, entry_addr, write_entry, insert_table}

abbrev linked_in : Option Table → ℕ → Option ℕ
linked_in none i = none
linked_in (some table) i = if table i == 0 then none else some (entry_addr (table i))

abbrev has_in : Option Table → Bool
has_in none = false
has_in (some table) = true

-- The address in entry `i` of table `a`, if the table is there and the entry is in use.
pub linked : Tables → ℕ → ℕ → Option ℕ
linked tables a i = linked_in (tables a) i

-- Whether there is a table at an address.
pub has : Tables → ℕ → Bool
has tables a = has_in (tables a)

-- What the processor reads there for an access that writes: the address, if the bits P and R/W are set.
abbrev opened_in : Option Table → ℕ → Option ℕ
opened_in none i = none
opened_in (some table) i = if table i % 4 == 3 then some (entry_addr (table i)) else none

pub opened : Tables → ℕ → ℕ → Option ℕ
opened tables a i = opened_in (tables a) i

abbrev FlaggedIn : Option Table → Type 0
FlaggedIn none = Unit {0}
FlaggedIn (some table) = (j : ℕ) → (table j ≡ 0) ⊎ (table j % 4 ≡ 3)

-- Every entry in use has both bits.
unfoldable pub Flagged : Tables → Type 0
Flagged tables = (x : ℕ) → FlaggedIn (tables x)

opened_in-linked_in : (t : Option Table) (i : ℕ) → FlaggedIn t → opened_in t i ≡ linked_in t i
opened_in-linked_in none i h = refl
opened_in-linked_in (some table) i h = elim (h i) [
  | inl empty ↦ ground (arith, empty)
  | inr bits ↦ ground (arith, bits)
]

pub opened-linked :
    (tables : Tables) (a i : ℕ) → Flagged tables → opened tables a i ≡ linked tables a i
unfolding opened linked Flagged
opened-linked tables a i h = opened_in-linked_in (tables a) i (h a)

abbrev pub bind : Option ℕ → (ℕ → Option ℕ) → Option ℕ
bind none f = none
bind (some a) f = f a

-- A level and the one below it, where new tables come from `high` on: an entry in use stands for a table
-- of the level below, and no two entries stand for the same.
pub record Level (upper lower : Tables) (high : ℕ) : Type 0 where
  pub whole : (x j c : ℕ) → linked upper x j ≡ some c → has lower c ≡ true
  pub single :
      (x j y k c : ℕ) → linked upper x j ≡ some c → linked upper y k ≡ some c → (x ≡ y) × (j ≡ k)
  pub fresh : (c : ℕ) → has lower c ≡ true → c < high

-- A level that looks the same, above one that has the same tables.
pub Level-same :
    (upper lower upper' lower' : Tables) (n n' : ℕ)
    → ((x j : ℕ) → linked upper' x j ≡ linked upper x j)
    → ((x : ℕ) → has lower' x ≡ has lower x)
    → n ≤ n'
    → Level upper lower n
    → Level upper' lower' n'
Level-same upper lower upper' lower' n n' same there more l = record {
  whole = λ x j c h. there c ∙ l.whole x j c (sym (same x j) ∙ h);
  single = λ x j y k c h g. l.single x j y k c (sym (same x j) ∙ h) (sym (same y k) ∙ g);
  fresh = λ c h. omega (arith, l.fresh c (sym (there c) ∙ h));
}

if_true : {A : Type 0} (b : Bool) (x y : A) → b ≡ true → (if b then x else y) ≡ x
if_true b x y h = ground (arith, h)

if_false : {A : Type 0} (b : Bool) (x y : A) → b ≡ false → (if b then x else y) ≡ y
if_false b x y h = ground (arith, h)

abbrev written : Table → ℕ → ℕ → Table
written table i e j = if j == i then e else table j

entry-here :
    (table : Table) (i e : ℕ)
    → (e == 0) ≡ false
    → linked_in (some (written table i e)) i ≡ some (entry_addr e)
entry-here table i e h = ground (arith, h)

entry-else :
    (table : Table) (i e j : ℕ)
    → (j == i) ≡ false
    → linked_in (some (written table i e)) j ≡ linked_in (some table) j
entry-else table i e j h = ground (arith, h)

module _ (tables : Tables) (a i e : ℕ) (table : Table) (there : tables a ≡ some table) where
  write_entry-here :
      (x : ℕ) → (x == a) ≡ true → write_entry tables a table i e x ≡ some (written table i e)
  unfolding write_entry
  write_entry-here x h = if_true (x == a) _ _ h

  write_entry-else : (x : ℕ) → (x == a) ≡ false → write_entry tables a table i e x ≡ tables x
  unfolding write_entry
  write_entry-else x h = if_false (x == a) _ _ h

  at_same : (x : ℕ) → (x == a) ≡ true → tables x ≡ some table
  at_same x h = ap tables (ground arith) ∙ there

  written-flagged : e % 4 ≡ 3 → FlaggedIn (some table) → FlaggedIn (some (written table i e))
  written-flagged bits h j = elim (Bool-cases (j == i)) [
    | inl here ↦ inr (rw here bits)
    | inr other ↦ rw other (h j)
  ]

  pub write_entry-Flagged : e % 4 ≡ 3 → Flagged tables → Flagged (write_entry tables a table i e)
  unfolding Flagged
  write_entry-Flagged bits h x = elim (Bool-cases (x == a)) [
    | inr other ↦ subst FlaggedIn (sym (write_entry-else x other)) (h x)
    | inl same ↦
        subst FlaggedIn (sym (write_entry-here x same))
          (written-flagged bits (subst FlaggedIn there (h a)))
  ]

  pub linked-write_entry-here :
      (e == 0) ≡ false → linked (write_entry tables a table i e) a i ≡ some (entry_addr e)
  unfolding linked
  linked-write_entry-here h =
      ap (λ t. linked_in t i) (write_entry-here a (ground arith)) ∙ entry-here table i e h

  pub linked-write_entry-else :
      (x j : ℕ)
      → (x == a) && (j == i) ≡ false
      → linked (write_entry tables a table i e) x j ≡ linked tables x j
  unfolding linked
  linked-write_entry-else x j h = elim (Bool-cases (x == a)) [
    | inr other ↦ ap (λ t. linked_in t j) (write_entry-else x other)
    | inl same ↦
        ap (λ t. linked_in t j) (write_entry-here x same)
        ∙ entry-else table i e j (ground arith)
        ∙ ap (λ t. linked_in t j) (sym (at_same x same))
  ]

  pub has-write_entry : (x : ℕ) → has (write_entry tables a table i e) x ≡ has tables x
  unfolding has
  has-write_entry x = elim (Bool-cases (x == a)) [
    | inr other ↦ ap has_in (write_entry-else x other)
    | inl same ↦ ap has_in (write_entry-here x same) ∙ ap has_in (sym (at_same x same))
  ]

module _ (tables : Tables) (a : ℕ) where
  insert_table-here : (x : ℕ) → (x == a) ≡ true → insert_table tables a x ≡ some zero_table
  unfolding insert_table
  insert_table-here x h = if_true (x == a) _ _ h

  insert_table-else : (x : ℕ) → (x == a) ≡ false → insert_table tables a x ≡ tables x
  unfolding insert_table
  insert_table-else x h = if_false (x == a) _ _ h

  pub insert_table-Flagged : Flagged tables → Flagged (insert_table tables a)
  unfolding Flagged
  insert_table-Flagged h x = elim (Bool-cases (x == a)) [
    | inr other ↦ subst FlaggedIn (sym (insert_table-else x other)) (h x)
    | inl same ↦ subst FlaggedIn (sym (insert_table-here x same)) (λ j. inl refl)
  ]

  pub linked-insert_table :
      (x j : ℕ) → tables a ≡ none → linked (insert_table tables a) x j ≡ linked tables x j
  unfolding linked
  linked-insert_table x j h = elim (Bool-cases (x == a)) [
    | inr other ↦ ap (λ t. linked_in t j) (insert_table-else x other)
    | inl same ↦
        ap (λ t. linked_in t j) (insert_table-here x same)
        ∙ ap (λ t. linked_in t j) (sym (ap tables (ground arith) ∙ h))
  ]

  pub has-insert_table-here : has (insert_table tables a) a ≡ true
  unfolding has
  has-insert_table-here = ap has_in (insert_table-here a (ground arith))

  pub has-insert_table-else :
      (x : ℕ) → (x == a) ≡ false → has (insert_table tables a) x ≡ has tables x
  unfolding has
  has-insert_table-else x h = ap has_in (insert_table-else x h)

  pub linked-absent : (j : ℕ) → tables a ≡ none → linked tables a j ≡ none
  unfolding linked
  linked-absent j h = ap (λ t. linked_in t j) h

  pub has-absent : tables a ≡ none → has tables a ≡ false
  unfolding has
  has-absent h = ap has_in h

  pub has-there : (table : Table) → tables a ≡ some table → has tables a ≡ true
  unfolding has
  has-there table h = ap has_in h

  pub linked-there :
      (table : Table) (j : ℕ)
      → tables a ≡ some table
      → linked tables a j ≡ (if table j == 0 then none else some (entry_addr (table j)))
  unfolding linked
  linked-there table j h = ap (λ t. linked_in t j) h

  pub has-some : has tables a ≡ true → (table : Table) × (tables a ≡ some table)
  unfolding has
  has-some h = some_of (tables a) h
    where
      some_of : (t : Option Table) → has_in t ≡ true → (table : Table) × (t ≡ some table)
      some_of none k = cc k
      some_of (some table) k = (table, refl)
