-- ===== src/Legacy/Path/Valid.antt =====
-- Which texts `VPath::new` accepts.
use obliteration.Prelude.{
  ℕ, ◌≡◌, ◌≢◌, refl, sym, ap, ◌∙◌, ◌↔◌, Bool, true, false, List, [], ◌∷◌, ◌++◌, append_assoc,
  append-nil, arith, ◌==◌, ==_iff, drop, Bool-cases, inl, inr,
}
use obliteration.Legacy.Path.{
  eqb, contains, starts_with, ends_with, is_refused, check_components, is_valid, slash,
}
use obliteration.Legacy.Path.Bytes.{contains-append, ends_with-append, ends_with-absent}
use obliteration.Legacy.Path.Names.{is_name, AllNames, render, no_slash, not_refused, render-append}

-- A text that a path may end in: not empty and with no separator.
pub record IsLast (c : List ℕ) : Type 0 where
  pub some_byte : c ≢ []
  pub no_separator : contains c slash ≡ false

-- Bytes other than the separator join the component at hand.
check-append :
    (c rest part : List ℕ)
    → contains c slash ≡ false
    → check_components (c ++ rest) part ≡ check_components rest (part ++ c)
unfolding check_components contains
check-append [] rest part h = ap (λ l. check_components rest l) (sym (append-nil part))
check-append (x ∷ xs) rest part h =
    ground (arith, check-append xs rest (part ++ x ∷ []), append_assoc part (x ∷ []) xs)

check_separator :
    (rest part : List ℕ)
    → is_refused part ≡ false
    → check_components (slash ∷ rest) part ≡ check_components rest []
unfolding check_components
check_separator rest part h = ground arith

check_names :
    (cs : List (List ℕ)) (c : List ℕ)
    → AllNames cs
    → contains c slash ≡ false
    → check_components (drop 1 (render (cs ++ c ∷ []))) [] ≡ true
check_names [] c hs h = check-append c [] [] h ∙ (unfold check_components in refl)
check_names (d ∷ []) c hs h =
    check-append d (slash ∷ (c ++ [])) [] (no_slash d hs.0)
    ∙ check_separator (c ++ []) d (not_refused d hs.0)
    ∙ check_names [] c tt h
check_names (d ∷ e ∷ cs) c hs h =
    check-append d (render (e ∷ cs ++ c ∷ [])) [] (no_slash d hs.0)
    ∙ check_separator (e ++ render (cs ++ c ∷ [])) d (not_refused d hs.0)
    ∙ check_names (e ∷ cs) c hs.1 h

ends_in :
    (cs : List (List ℕ)) (c : List ℕ) → IsLast c → ends_with (render cs ++ slash ∷ c) slash ≡ false
ends_in cs [] l = absurd (l.some_byte refl)
ends_in cs (x ∷ xs) l =
    ends_with-append (render cs) slash (x ∷ xs) slash
    ∙ ends_with-append (slash ∷ []) x xs slash
    ∙ ends_with-absent (x ∷ xs) slash l.no_separator

-- The names of a text that has passed the loop, from the component at hand on.
record Parsed (text : List ℕ) : Type 0 where
  names : List (List ℕ)
  last : List ℕ
  text_of : text ≡ render (names ++ last ∷ [])
  named : AllNames names
  no_separator : contains last slash ≡ false

name_of :
    (part : List ℕ) → is_refused part ≡ false → contains part slash ≡ false → is_name part ≡ true
unfolding is_name
name_of part h k = ground arith

contains-snoc :
    (part : List ℕ) (ch : ℕ)
    → contains part slash ≡ false
    → (ch == slash) ≡ false
    → contains (part ++ ch ∷ []) slash ≡ false
unfolding contains
contains-snoc part ch h k = ground (arith, contains-append part (ch ∷ []) slash)

one_more :
    (part rest : List ℕ) (ch : ℕ)
    → (ch == slash) ≡ true
    → is_refused part ≡ false
    → contains part slash ≡ false
    → Parsed (slash ∷ rest)
    → Parsed (slash ∷ (part ++ ch ∷ rest))
one_more part rest ch sep h k p = record {
  names = part ∷ p.names;
  last = p.last;
  text_of =
      ap (λ l. slash ∷ l)
        (ap (λ l. part ++ l) (ap (λ c. c ∷ rest) ((==_iff ch slash).0 sep) ∙ p.text_of));
  named = (name_of part h k, p.named);
  no_separator = p.no_separator;
}

same_text : (xs ys : List ℕ) → xs ≡ ys → Parsed xs → Parsed ys
same_text xs ys h p = record {
  names = p.names;
  last = p.last;
  text_of = sym h ∙ p.text_of;
  named = p.named;
  no_separator = p.no_separator;
}

check_part :
    (ch : ℕ) (rest part : List ℕ)
    → check_components (ch ∷ rest) part ≡ true
    → (ch == slash) ≡ true
    → is_refused part ≡ false
unfolding check_components
check_part ch rest part h k = ground arith

check_rest :
    (ch : ℕ) (rest part : List ℕ)
    → check_components (ch ∷ rest) part ≡ true
    → (ch == slash) ≡ true
    → check_components rest [] ≡ true
unfolding check_components
check_rest ch rest part h k = ground arith

check_onward :
    (ch : ℕ) (rest part : List ℕ)
    → check_components (ch ∷ rest) part ≡ true
    → (ch == slash) ≡ false
    → check_components rest (part ++ ch ∷ []) ≡ true
unfolding check_components
check_onward ch rest part h k = ground arith

Parsed-of_check :
    (rest part : List ℕ)
    → check_components rest part ≡ true
    → contains part slash ≡ false
    → Parsed (slash ∷ (part ++ rest))
Parsed-of_check [] part h k = record {
  names = [];
  last = part;
  text_of = refl;
  named = tt;
  no_separator = k;
}
Parsed-of_check (ch ∷ rest) part h k = elim (Bool-cases (ch == slash)) [
  | inl sep ↦
      one_more part rest ch sep (check_part ch rest part h sep) k
        (Parsed-of_check rest [] (check_rest ch rest part h sep) (unfold contains in refl))
  | inr other ↦ same_text _ _ (ap (λ l. slash ∷ l) (append_assoc part (ch ∷ []) rest)) (
      Parsed-of_check rest (part ++ ch ∷ []) (check_onward ch rest part h other)
        (contains-snoc part ch k other))
]

valid_start : (p : List ℕ) → is_valid p ≡ true → starts_with p slash ≡ true
unfolding is_valid
valid_start p h = ground arith

valid_end : (p : List ℕ) → is_valid p ≡ true → ends_with p slash ≡ false
unfolding is_valid
valid_end p h = ground arith

valid_check : (p : List ℕ) → is_valid p ≡ true → check_components (drop 1 p) [] ≡ true
unfolding is_valid
valid_check p h = ground arith

head_slash : (p : List ℕ) → starts_with p slash ≡ true → slash ∷ drop 1 p ≡ p
unfolding starts_with
head_slash [] h = cc
head_slash (x ∷ xs) h = ap (λ c. c ∷ xs) (sym ((==_iff x slash).0 h))

not_both : (b : Bool) → true ≡ b → b ≡ false → ⊥
not_both b h k = cc

last_some :
    (names : List (List ℕ)) (last : List ℕ)
    → ends_with (render (names ++ last ∷ [])) slash ≡ false
    → last ≢ []
unfolding ends_with
last_some names last h e =
    not_both _
      (sym (
        ap (λ l. ends_with l slash)
          (ap (λ l. render (names ++ l ∷ [])) e ∙ render-append names ([] ∷ []))
        ∙ ends_with-append (render names) slash [] slash))
      h

valid_names :
    (p : List ℕ)
    → is_valid p ≡ true
    → Parsed p
    → (cs : List (List ℕ)) × (c : List ℕ) × (p ≡ render (cs ++ c ∷ [])) × AllNames cs × IsLast c
valid_names p h f = (
  f.names,
  f.last,
  f.text_of,
  f.named,
  record {
    some_byte =
        last_some f.names f.last (ap (λ l. ends_with l slash) (sym f.text_of) ∙ valid_end p h);
    no_separator = f.no_separator;
  },
)

starts : (cs : List (List ℕ)) (c : List ℕ) → starts_with (render (cs ++ c ∷ [])) slash ≡ true
unfolding starts_with
starts [] c = refl
starts (d ∷ cs) c = refl

not_empty : (cs : List (List ℕ)) (c : List ℕ) → eqb (render (cs ++ c ∷ [])) [] ≡ false
unfolding eqb
not_empty [] c = refl
not_empty (d ∷ cs) c = refl

names_valid :
    (cs : List (List ℕ)) (c : List ℕ)
    → AllNames cs
    → IsLast c
    → is_valid (render (cs ++ c ∷ [])) ≡ true
unfolding is_valid
names_valid cs c hs l = ground (
  arith,
  check_names cs c hs l.no_separator,
  ends_in cs c l,
  render-append cs (c ∷ []),
  append-nil c,
  starts cs c,
  not_empty cs c,
)

-- `VPath::new` accepts a text exactly when it is a separator and a component, one after another,
-- where each component but the last is a name, and the last is not empty and has no separator.
pub is_valid_iff :
    (p : List ℕ)
    → (is_valid p ≡ true)
      ↔ ((cs : List (List ℕ)) × (c : List ℕ) × (p ≡ render (cs ++ c ∷ [])) × AllNames cs × IsLast c)
is_valid_iff p = (
  λ h. valid_names p h (
      same_text _ _ (head_slash p (valid_start p h))
        (Parsed-of_check (drop 1 p) [] (valid_check p h) (unfold contains in refl))),
  λ f. ap (λ l. is_valid l) f.2 ∙ names_valid f.0 f.1 f.3 f.4,
)
