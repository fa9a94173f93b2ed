-- ===== src/Config/Env/RoundTrip.antt =====
-- What `extend_env` adds is what `Config::env` yields.
use obliteration.Prelude.{
  ℕ, suc, ◌+◌, ◌≡◌, ◌<◌, ◌≤◌, refl, sym, ap, ◌∙◌, Bool, true, List, [], ◌∷◌, ◌++◌, append_assoc,
  append-nil, length, take, drop, length-append, length-drop, length-replicate, arith, done, dec_le,
  subst,
}
use obliteration.Prelude.Segments.{drop-append}
use obliteration.Config.Env.{
  Var, env_end, end_sep, entry_size, position, terminate, write_entries, extend_env, cleared, env,
}
use obliteration.Config.Env.Encode.{
  encode, encode-cons, length-encode, Terminated, terminate-Terminated, Lacks, Lacks-append,
  Lacks-sep, position-here, AllTexts, env-encode,
}

-- What the loop leaves: the variables it has written, and those it has not.
pub record Written (vars : List Var) (space : List ℕ) : Type 0 where
  pub written : List Var
  pub left : List Var
  pub pad : List ℕ
  pub ends : Terminated pad
  pub result : write_entries vars space ≡ (encode written ++ pad, left)
  pub all : written ++ left ≡ vars

write_fits :
    (e : Var) (vars : List Var) (space : List ℕ)
    → entry_size e ≤ length space
    → write_entries (e ∷ vars) space ≡ (
      e.0
          ++ end_sep
            ∷ (e.1 ++ env_end ∷ (write_entries vars (terminate (drop (entry_size e) space))).0),
      (write_entries vars (terminate (drop (entry_size e) space))).1,
    )
unfolding write_entries
write_fits e vars space h = ground arith

write_full :
    (e : Var) (vars : List Var) (space : List ℕ)
    → length space < entry_size e
    → write_entries (e ∷ vars) space ≡ (space, e ∷ vars)
unfolding write_entries
write_full e vars space h = ground arith

write_again :
    (e : Var) (vars : List Var) (space : List ℕ)
    → entry_size e ≤ length space
    → (w : Written vars (terminate (drop (entry_size e) space)))
    → write_entries (e ∷ vars) space ≡ (encode (e ∷ w.written) ++ w.pad, w.left)
write_again e vars space h w =
    write_fits e vars space h
    ∙ ap (λ r. (e.0 ++ end_sep ∷ (e.1 ++ env_end ∷ r.0), r.1)) w.result
    ∙ ap (λ l. (l, w.left)) (sym (encode-cons e w.written w.pad))

write_more :
    (e : Var) (vars : List Var) (space : List ℕ)
    → entry_size e ≤ length space
    → Written vars (terminate (drop (entry_size e) space))
    → Written (e ∷ vars) space
write_more e vars space h w = record {
  written = e ∷ w.written;
  left = w.left;
  pad = w.pad;
  ends = w.ends;
  result = write_again e vars space h w;
  all = ap (λ l. e ∷ l) w.all;
}

write_none : (space : List ℕ) → write_entries [] space ≡ (space, [])
unfolding write_entries
write_none space = refl

pub write_entries-Written :
    (vars : List Var) (space : List ℕ) → Terminated space → Written vars space
write_entries-Written [] space t = record {
  written = [];
  left = [];
  pad = space;
  ends = t;
  result = write_none space;
  all = refl;
}
write_entries-Written (e ∷ vars) space t = elim (dec_le (entry_size e) (length space)) [
  | yes fits ↦ write_more e vars space fits (
      write_entries-Written vars (terminate (drop (entry_size e) space))
        (terminate-Terminated (drop (entry_size e) space)))
  | no full ↦ record {
    written = [];
    left = e ∷ vars;
    pad = space;
    ends = t;
    result = write_full e vars space (omega arith);
    all = refl;
  }
]

length-terminate : (space : List ℕ) → length (terminate space) ≡ length space
unfolding terminate
length-terminate [] = refl
length-terminate (x ∷ xs) = refl

-- Where all fit, none is left.
write_entries-all :
    (vars : List Var) (space : List ℕ)
    → length (encode vars) ≤ length space
    → (write_entries vars space).1 ≡ []
write_entries-all [] space h = ap (λ r. r.1) (write_none space)
write_entries-all (e ∷ vars) space h =
    ap (λ r. r.1) (write_fits e vars space (omega (arith, length-encode e vars)))
    ∙ write_entries-all vars (terminate (drop (entry_size e) space)) (
        omega (
          arith,
          length-encode e vars,
          length-terminate (drop (entry_size e) space),
          length-drop (entry_size e) space,
        ))

extend_cleared :
    (n : ℕ) (vars : List Var)
    → extend_env (cleared (suc n)) vars ≡ done (write_entries vars (cleared (suc n)))
unfolding extend_env position
extend_cleared n vars = ground arith

take_more : (xs : List ℕ) (y : ℕ) (ys : List ℕ) → take (length xs + 1) (xs ++ y ∷ ys) ≡ xs ++ y ∷ []
take_more [] y ys = refl
take_more (x ∷ xs) y ys = ground (arith, take_more xs y ys)

abbrev entry_text : Var → List ℕ
entry_text e = e.0 ++ end_sep ∷ e.1

encode-text :
    (e : Var) (es : List Var) (pad : List ℕ)
    → encode (e ∷ es) ++ pad ≡ entry_text e ++ env_end ∷ (encode es ++ pad)
encode-text e es pad =
    encode-cons e es pad ∙ sym (append_assoc e.0 (end_sep ∷ e.1) (env_end ∷ (encode es ++ pad)))

rejoined :
    (e : Var) (es : List Var) (pad : List ℕ)
    → (entry_text e ++ env_end ∷ []) ++ (encode es ++ pad) ≡ encode (e ∷ es) ++ pad
rejoined e es pad =
    append_assoc (entry_text e) (env_end ∷ []) (encode es ++ pad) ∙ sym (encode-text e es pad)

module _ (utf8 : List ℕ → Bool) (no_end : (s : List ℕ) → utf8 s ≡ true → Lacks s env_end)
    (no_sep : (s : List ℕ) → utf8 s ≡ true → Lacks s end_sep) where
  -- Variables that fit into a cleared array are all written, and reading yields them in order, where
  -- their keys and values are UTF-8, which has none of the two marks in it.
  pub env-extend_env :
      (n : ℕ) (vars : List Var)
      → AllTexts utf8 no_end no_sep vars
      → length (encode vars) ≤ suc n
      → (array : List ℕ) × (extend_env (cleared (suc n)) vars ≡ done (array, []))
        × (env utf8 array ≡ done vars)
  env-extend_env n vars h fits =
      let w = write_entries-Written vars (cleared (suc n)) refl in
      let none_left : w.left ≡ [] =
        sym (ap (λ r. r.1) w.result)
        ∙ write_entries-all vars (cleared (suc n))
            (omega (arith, length-replicate (suc n) env_end)) in
      let all_written : w.written ≡ vars =
        sym (append-nil w.written) ∙ ap (λ l. w.written ++ l) (sym none_left) ∙ w.all in
      (
        encode w.written ++ w.pad,
        extend_cleared n vars
            ∙ ap (λ r. done r) (w.result ∙ ap (λ l. (encode w.written ++ w.pad, l)) none_left),
        ap (λ l. env utf8 (encode l ++ w.pad)) all_written
            ∙ env-encode utf8 no_end no_sep vars w.pad h w.ends,
      )

  AllTexts-front :
      (xs ys : List Var) → AllTexts utf8 no_end no_sep (xs ++ ys) → AllTexts utf8 no_end no_sep xs
  AllTexts-front [] ys h = tt
  AllTexts-front (x ∷ xs) ys h = (h.0, h.1, AllTexts-front xs ys h.2)

  text-Lacks : (e : Var) → utf8 e.0 ≡ true → utf8 e.1 ≡ true → Lacks (entry_text e) env_end
  text-Lacks e h k =
      Lacks-append e.0 env_end (end_sep ∷ e.1) (no_end e.0 h) (Lacks-sep e.1 (no_end e.1 k))

  extend_env_behind :
      (e : Var) (rest : List ℕ) (vars : List Var)
      → utf8 e.0 ≡ true
      → utf8 e.1 ≡ true
      → extend_env (entry_text e ++ env_end ∷ rest) vars
        ≡ done (
          (entry_text e ++ env_end ∷ []) ++ (write_entries vars rest).0,
          (write_entries vars rest).1,
        )
  unfolding extend_env
  extend_env_behind e rest vars h k = ground (
    arith,
    position-here (entry_text e) env_end rest (text-Lacks e h k),
    length-append e.0 (end_sep ∷ e.1),
    take_more (entry_text e) env_end rest,
    drop-append (entry_text e) (env_end ∷ rest) 1,
  )

  -- On an array that holds `first` and any further variables, a call whose first variable `x` fits
  -- writes directly behind `first`: reading then yields `first`, `x` and the others that have been
  -- written, and none of the further variables from before. All texts are UTF-8, which has none of
  -- the two marks in it.
  pub extend_env_keeps_first :
      (first : Var) (further : List Var) (pad : List ℕ) (x : Var) (vars : List Var)
      → AllTexts utf8 no_end no_sep (first ∷ x ∷ vars)
      → entry_size x ≤ length (encode further ++ pad)
      → (array : List ℕ) × (written : List Var) × (left : List Var) × (extend_env
            (encode (first ∷ further) ++ pad)
            (x ∷ vars)
          ≡ done (array, left))
        × (env utf8 array ≡ done (first ∷ x ∷ written))
        × (written ++ left ≡ vars)
  extend_env_keeps_first first further pad x vars h fits =
      let rest : List ℕ = encode further ++ pad in
      let w =
        write_entries-Written vars (terminate (drop (entry_size x) rest))
          (terminate-Terminated (drop (entry_size x) rest)) in
      let texts : AllTexts utf8 no_end no_sep (w.written ++ w.left) =
        subst (λ l. AllTexts utf8 no_end no_sep l) (sym w.all) h.2.2 in
      (
        encode (first ∷ x ∷ w.written) ++ w.pad,
        w.written,
        w.left,
        ap (λ l. extend_env l (x ∷ vars)) (encode-text first further pad)
            ∙ extend_env_behind first rest (x ∷ vars) h.0 h.1
            ∙ ap (λ r. done ((entry_text first ++ env_end ∷ []) ++ r.0, r.1))
                (write_again x vars rest fits w)
            ∙ ap (λ l. done (l, w.left)) (rejoined first (x ∷ w.written) w.pad),
        env-encode utf8 no_end no_sep (first ∷ x ∷ w.written) w.pad
            (h.0, h.1, (h.2.0, h.2.1, AllTexts-front w.written w.left texts)) w.ends,
        w.all,
      )
