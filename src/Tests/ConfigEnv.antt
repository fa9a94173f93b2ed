-- ===== src/Tests/ConfigEnv.antt =====
-- Environment variables of ASCII letters in an array of 16 bytes.
use obliteration.Prelude.{
  ℕ, ◌≡◌, refl, Bool, true, ◌&&◌, List, [], ◌∷◌, ◌++◌, ltb, arith, done, ◌>>=◌, replicate,
}
use obliteration.Config.Env.{
  Var, env_end, end_sep, position, terminate, write_entries, extend_env, cleared, split_entry,
  next_entry, collect_env, env,
}
use obliteration.Config.Env.Encode.{encode, Lacks}
use obliteration.Config.Env.RoundTrip.{env-extend_env, extend_env_keeps_first}

abbrev ascii : List ℕ → Bool
ascii [] = true
ascii (x ∷ xs) = ltb x 0x80 && ascii xs

ascii-Lacks_end : (s : List ℕ) → ascii s ≡ true → Lacks s env_end
unfolding position
ascii-Lacks_end [] h = refl
ascii-Lacks_end (x ∷ xs) h = ground (arith, ascii-Lacks_end xs)

ascii-Lacks_sep : (s : List ℕ) → ascii s ≡ true → Lacks s end_sep
unfolding position
ascii-Lacks_sep [] h = refl
ascii-Lacks_sep (x ∷ xs) h = ground (arith, ascii-Lacks_sep xs)

-- `a=1`, `b=2` and `c=3`.
abbrev a_one : Var
a_one = (b'a' ∷ [], b'1' ∷ [])

abbrev b_two : Var
b_two = (b'b' ∷ [], b'2' ∷ [])

abbrev c_three : Var
c_three = (b'c' ∷ [], b'3' ∷ [])

abbrev two : List Var
two = a_one ∷ b_two ∷ []

abbrev filled : List ℕ
filled = encode two ++ replicate 8 env_end

-- The second call overwrites `b=2`.
overwrites : (extend_env filled (c_three ∷ []) >>= λ r. env ascii r.0) ≡ done (a_one ∷ c_three ∷ [])
unfolding extend_env write_entries terminate position env collect_env next_entry split_entry
overwrites = refl

env-extend_env_example :
    (array : List ℕ) × (extend_env (cleared 16) two ≡ done (array, []))
    × (env ascii array ≡ done two)
env-extend_env_example =
    env-extend_env ascii ascii-Lacks_end ascii-Lacks_sep 15 two (refl, refl, (refl, refl, tt))
      (omega arith)

extend_env_keeps_first_example :
    (array : List ℕ) × (written : List Var) × (left : List Var) × (extend_env filled (c_three ∷ [])
      ≡ done (array, left))
    × (env ascii array ≡ done (a_one ∷ c_three ∷ written))
    × (written ++ left ≡ [])
extend_env_keeps_first_example =
    extend_env_keeps_first ascii ascii-Lacks_end ascii-Lacks_sep a_one (b_two ∷ [])
      (replicate 8 env_end) c_three [] (refl, refl, (refl, refl, tt)) (omega arith)
