-- ===== src/Hv/PageTables/Entries.antt =====
-- An entry: the address that is put in one is the address that is read from it.
use obliteration.Prelude.{
  ℕ, ◌+◌, ◌/◌, ◌%◌, ◌^◌, ◌<◌, ◌≡◌, ◌∙◌, ap, true, false, ◌==◌, bit_and, bit_or, arith, done,
  Bool-cases, inl, inr,
}
use obliteration.Prelude.Bits.{bit_and-window, bit_and-ones}
use obliteration.Prelude.BitOr.{bit_or-one, bit_or-two}
use obliteration.Hv.PageTables.{entry_addr, set_page_entry, pml4o, pdpo, pdo, pto}

below_52 :
    (addr : ℕ) → addr < 2 ^ 63 → (bit_and addr 0x7FF0000000000000 == 0) ≡ true → addr < 2 ^ 52
below_52 addr h low = ground (arith, bit_and-window 52 11 addr)

page_aligned : (addr : ℕ) → (bit_and addr 0xFFF == 0) ≡ true → addr % 4096 ≡ 0
page_aligned addr al = ground (arith, bit_and-ones 12 addr)

flags : (addr : ℕ) → addr % 4096 ≡ 0 → bit_or (bit_or addr 1) 2 ≡ addr + 3
flags addr h =
    ap (λ t. bit_or t 2) (bit_or-one addr (omega arith))
    ∙ bit_or-two (addr + 1) (omega arith)
    ∙ omega arith

-- What the two assertions of `set_page_entry` come to, for an address below 2 ^ 63.
pub set_page_entry-done :
    (addr e : ℕ)
    → addr < 2 ^ 63
    → set_page_entry addr ≡ done e
    → (e ≡ addr + 3) × (addr % 4096 ≡ 0) × (addr < 2 ^ 52)
unfolding set_page_entry
set_page_entry-done addr e h k = elim (Bool-cases (bit_and addr 0x7FF0000000000000 == 0)) [
  | inr high ↦ cc (k, high)
  | inl low ↦ elim (Bool-cases (bit_and addr 0xFFF == 0)) [
    | inr off ↦ cc (k, low, off)
    | inl al ↦ (
      cc (k, low, al, flags addr (page_aligned addr al)),
      page_aligned addr al,
      below_52 addr h low,
    )
  ]
]

entry_addr_three : (addr : ℕ) → addr % 4096 ≡ 0 → addr < 2 ^ 52 → entry_addr (addr + 3) ≡ addr
entry_addr_three addr h k = omega (arith, bit_and-window 12 40 (addr + 3))

pub entry_addr-set_page_entry :
    (addr e : ℕ)
    → addr < 2 ^ 63
    → set_page_entry addr ≡ done e
    → (entry_addr e ≡ addr) × ((e == 0) ≡ false)
entry_addr-set_page_entry addr e h k =
    let (w, al, low) = set_page_entry-done addr e h k in
    (ap entry_addr w ∙ entry_addr_three addr al low, ground (arith, w))

-- The entry has the bits P and R/W.
pub set_page_entry-bits : (addr e : ℕ) → addr < 2 ^ 63 → set_page_entry addr ≡ done e → e % 4 ≡ 3
set_page_entry-bits addr e h k =
    let (w, al, low) = set_page_entry-done addr e h k in omega (arith, w, al)

pub index_parts :
    (a b : ℕ)
    → pml4o a ≡ pml4o b
    → pdpo a ≡ pdpo b
    → pdo a ≡ pdo b
    → pto a ≡ pto b
    → a % 2 ^ 48 / 4096 ≡ b % 2 ^ 48 / 4096
index_parts a b h k l m = omega (
  arith,
  bit_and-window 39 9 a,
  bit_and-window 39 9 b,
  bit_and-window 30 9 a,
  bit_and-window 30 9 b,
  bit_and-window 21 9 a,
  bit_and-window 21 9 b,
  bit_and-window 12 9 a,
  bit_and-window 12 9 b,
)

-- The indices of two addresses of one page.
pub same_indices :
    (a b : ℕ)
    → a % 2 ^ 48 / 4096 ≡ b % 2 ^ 48 / 4096
    → (pml4o a ≡ pml4o b) × (pdpo a ≡ pdpo b) × (pdo a ≡ pdo b) × (pto a ≡ pto b)
same_indices a b h = (
  omega (arith, bit_and-window 39 9 a, bit_and-window 39 9 b),
  omega (arith, bit_and-window 30 9 a, bit_and-window 30 9 b),
  omega (arith, bit_and-window 21 9 a, bit_and-window 21 9 b),
  omega (arith, bit_and-window 12 9 a, bit_and-window 12 9 b),
)
