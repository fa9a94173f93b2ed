-- ===== src/Config/Env/Encode.antt =====
-- What the array holds for a list of variables, and that the iterator reads them back.
use obliteration.Prelude.{
  ℕ, zero, suc, ◌+◌, ◌≡◌, ◌≢◌, ◌<◌, ◌≤◌, refl, sym, ap, ◌∙◌, Bool, true, none, some, List, [], ◌∷◌,
  ◌++◌, append_assoc, length, length-append, arith, done,
}
use obliteration.Prelude.Segments.{take_all, drop_all}
use obliteration.Config.Env.{
  Var, env_end, end_sep, position, terminate, entry_size, split_entry, next_entry, collect_env, env,
}

-- The variables one behind the other.
abbrev pub encode : List Var → List ℕ
encode [] = []
encode (e ∷ es) = e.0 ++ end_sep ∷ (e.1 ++ env_end ∷ encode es)

-- What may stand behind the last variable: nothing, or a byte that ends the search.
abbrev pub Terminated : List ℕ → Type 0
Terminated [] = Unit {0}
Terminated (x ∷ xs) = x ≡ env_end

pub encode-cons :
    (e : Var) (es : List Var) (pad : List ℕ)
    → encode (e ∷ es) ++ pad ≡ e.0 ++ end_sep ∷ (e.1 ++ env_end ∷ (encode es ++ pad))
encode-cons e es pad =
    append_assoc e.0 (end_sep ∷ (e.1 ++ env_end ∷ encode es)) pad
    ∙ ap (λ l. e.0 ++ end_sep ∷ l) (append_assoc e.1 (env_end ∷ encode es) pad)

pub length-encode :
    (e : Var) (es : List Var) → length (encode (e ∷ es)) ≡ entry_size e + length (encode es)
length-encode e es = omega (
  arith,
  length-append e.0 (end_sep ∷ (e.1 ++ env_end ∷ encode es)),
  length-append e.1 (env_end ∷ encode es),
)

pub few_entries : (es : List Var) → length es ≤ length (encode es)
few_entries [] = omega arith
few_entries (e ∷ es) = omega (arith, length-encode e es, few_entries es)

pub terminate-Terminated : (space : List ℕ) → Terminated (terminate space)
unfolding terminate
terminate-Terminated [] = tt
terminate-Terminated (x ∷ xs) = refl

-- No such byte.
abbrev pub Lacks : List ℕ → ℕ → Type 0
Lacks xs b = position xs b ≡ none

pub position-here :
    (xs : List ℕ) (b : ℕ) (rest : List ℕ)
    → Lacks xs b
    → position (xs ++ b ∷ rest) b ≡ some (length xs)
unfolding position
position-here [] b rest h = ground arith
position-here (x ∷ xs) b rest h = ground (arith, position-here xs b rest)

pub Lacks-append :
    (xs : List ℕ) (b : ℕ) (ys : List ℕ) → Lacks xs b → Lacks ys b → Lacks (xs ++ ys) b
unfolding position
Lacks-append [] b ys h k = k
Lacks-append (x ∷ xs) b ys h k = ground (arith, Lacks-append xs b ys)

pub Lacks-sep : (ys : List ℕ) → Lacks ys env_end → Lacks (end_sep ∷ ys) env_end
unfolding position
Lacks-sep ys h = ground arith

-- `from_utf8` takes no text with one of the two marks in it.
module _ (utf8 : List ℕ → Bool) (no_end : (s : List ℕ) → utf8 s ≡ true → Lacks s env_end)
    (no_sep : (s : List ℕ) → utf8 s ≡ true → Lacks s end_sep) where
  abbrev pub AllTexts : List Var → Type 0
  AllTexts [] = Unit {0}
  AllTexts (e ∷ es) = (utf8 e.0 ≡ true) × (utf8 e.1 ≡ true) × AllTexts es

  split_entry_lem :
      (k v : List ℕ)
      → utf8 k ≡ true
      → utf8 v ≡ true
      → split_entry utf8 (k ++ end_sep ∷ v) ≡ done (k, v)
  unfolding split_entry
  split_entry_lem k v h1 h2 = ground (
    arith,
    position-here k end_sep v (no_sep k h1),
    take_all k (end_sep ∷ v),
    drop_all k (end_sep ∷ v),
  )

  next_some :
      (x : ℕ) (xs rest : List ℕ) (e : Var)
      → Lacks (x ∷ xs) env_end
      → split_entry utf8 (x ∷ xs) ≡ done e
      → next_entry utf8 ((x ∷ xs) ++ env_end ∷ rest) ≡ done (some (e, rest))
  unfolding next_entry
  next_some x xs rest e h k = ground (
    arith,
    position-here (x ∷ xs) env_end rest h,
    take_all (x ∷ xs) (env_end ∷ rest),
    drop_all (x ∷ xs) (env_end ∷ rest),
  )

  next_text :
      (text rest : List ℕ) (e : Var)
      → text ≢ []
      → Lacks text env_end
      → split_entry utf8 text ≡ done e
      → next_entry utf8 (text ++ env_end ∷ rest) ≡ done (some (e, rest))
  next_text [] rest e ne h k = absurd (ne refl)
  next_text (x ∷ xs) rest e ne h k = next_some x xs rest e h k

  some_text : (k v : List ℕ) → k ++ end_sep ∷ v ≢ []
  some_text [] v h = cc
  some_text (x ∷ k) v h = cc

  next_entry-encode :
      (e : Var) (rest : List ℕ)
      → utf8 e.0 ≡ true
      → utf8 e.1 ≡ true
      → next_entry utf8 (e.0 ++ end_sep ∷ (e.1 ++ env_end ∷ rest)) ≡ done (some (e, rest))
  next_entry-encode e rest h1 h2 =
      ap (λ l. next_entry utf8 l) (sym (append_assoc e.0 (end_sep ∷ e.1) (env_end ∷ rest)))
      ∙ next_text (e.0 ++ end_sep ∷ e.1) rest e (some_text e.0 e.1)
          (Lacks-append e.0 env_end (end_sep ∷ e.1) (no_end e.0 h1) (Lacks-sep e.1 (no_end e.1 h2)))
          (split_entry_lem e.0 e.1 h1 h2)

  next_entry-Terminated : (pad : List ℕ) → Terminated pad → next_entry utf8 pad ≡ done none
  unfolding next_entry position
  next_entry-Terminated [] h = refl
  next_entry-Terminated (x ∷ xs) h = ground arith

  collect_env-encode :
      (calls : ℕ) (es : List Var) (pad : List ℕ)
      → AllTexts es
      → Terminated pad
      → length es < calls
      → collect_env utf8 calls (encode es ++ pad) ≡ done es
  unfolding collect_env
  collect_env-encode zero es pad h t l = absurd (omega arith)
  collect_env-encode (suc calls) [] pad h t l = ground (arith, next_entry-Terminated pad t)
  collect_env-encode (suc calls) (e ∷ es) pad h t l = ground (
    arith,
    encode-cons e es pad,
    next_entry-encode e (encode es ++ pad) h.0 h.1,
    collect_env-encode calls es pad h.2 t (omega arith),
  )

  -- Reading yields the variables.
  pub env-encode :
      (es : List Var) (pad : List ℕ)
      → AllTexts es
      → Terminated pad
      → env utf8 (encode es ++ pad) ≡ done es
  unfolding env
  env-encode es pad h t =
      collect_env-encode (length (encode es ++ pad) + 1) es pad h t
        (omega (arith, length-append (encode es) pad, few_entries es))
