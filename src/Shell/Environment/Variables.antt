-- ===== src/Shell/Environment/Variables.antt =====
-- What `setenv` and `unsetenv` leave in the environment.
use corestack_peky.Common.{
  ℕ, ◌≡◌, ◌⊎◌, inl, inr, refl, ◌∙◌, arith, List, [], ◌∷◌, ◌++◌, none, some, Bool, true, false,
  if◌then◌else◌, Bool-cases, Option-cases, ◌||◌,
}
use corestack_peky.Text.{str_eq, split_at}
use corestack_peky.Shell.Aliases.{equals_sign}
use corestack_peky.Shell.Aliases.Quotes.{split_at-first}
use corestack_peky.Shell.Environment.{
  Env, has_equals, is_empty, setenv, unsetenv, bad_name, strip_quotes, setenv_loop, bi_setenv,
  any_bad, unsetenv_loop, bi_unsetenv,
}

equals-refused :
    (n : List ℕ) (p : List ℕ × List ℕ) → split_at equals_sign n ≡ some p → bad_name n ≡ false → ⊥
unfolding bad_name
equals-refused n p o good =
    let seen : has_equals n ≡ true = rw (has_equals, o) refl in ground (arith, seen, good)

bad_name-false :
    (n : List ℕ)
    → bad_name n ≡ false
    → (split_at equals_sign n ≡ none) × ((is_empty n || has_equals n) ≡ false)
unfolding bad_name
bad_name-false n good =
    let shape : (is_empty n || has_equals n) ≡ false = ground arith in
    elim (Option-cases (split_at equals_sign n)) [
      | inl o ↦ (o, shape)
      | inr (p, o) ↦ absurd (equals-refused n p o good)
    ]

-- The arguments NAME=VALUE for names and values.
abbrev pub written : List (List ℕ × List ℕ) → List (List ℕ)
written [] = []
written (p ∷ pairs) = (p.0 ++ (equals_sign ∷ p.1)) ∷ written pairs

abbrev pub GoodNames : List (List ℕ × List ℕ) → Type 0
GoodNames [] = Unit
GoodNames (p ∷ pairs) = (bad_name p.0 ≡ false) × GoodNames pairs

-- The environment with each name set in turn, its value without quotes around it.
abbrev pub assigned : List (List ℕ × List ℕ) → Env → Env
assigned [] env = env
assigned (p ∷ pairs) env =
    assigned pairs (λ m. if str_eq p.0 m then some (strip_quotes p.1) else env m)

setenv_loop-one :
    (arg n value : List ℕ) (args : List (List ℕ)) (env : Env)
    → split_at equals_sign arg ≡ some (n, value)
    → bad_name n ≡ false
    → (is_empty n || has_equals n) ≡ false
    → setenv_loop (arg ∷ args) env
      ≡ setenv_loop args (λ m. if str_eq n m then some (strip_quotes value) else env m)
unfolding setenv_loop
setenv_loop-one arg n value args env parts good fine =
    rw (setenv_loop, parts, good, setenv, fine) refl

setenv_loop-written :
    (pairs : List (List ℕ × List ℕ)) (env : Env)
    → GoodNames pairs
    → setenv_loop (written pairs) env ≡ (assigned pairs env, 0)
unfolding setenv_loop
setenv_loop-written [] env good = refl
setenv_loop-written (p ∷ pairs) env good =
    let fine = bad_name-false p.0 good.0 in
    let parts = split_at-first equals_sign p.0 p.1 fine.0 in
    setenv_loop-one (p.0 ++ (equals_sign ∷ p.1)) p.0 p.1 (written pairs) env parts good.0 fine.1
    ∙ setenv_loop-written pairs _ good.1

-- `setenv` with arguments NAME=VALUE whose names it accepts succeeds, and sets each of them in turn
-- to the value without the quotes around it.
pub bi_setenv-written :
    (cmd : List ℕ) (p : List ℕ × List ℕ) (pairs : List (List ℕ × List ℕ)) (env : Env)
    → GoodNames (p ∷ pairs)
    → bi_setenv (cmd ∷ written (p ∷ pairs)) env ≡ (assigned (p ∷ pairs) env, 0)
unfolding bi_setenv
bi_setenv-written cmd p pairs env good = setenv_loop-written (p ∷ pairs) env good

-- One of the names is this one.
abbrev pub names_it : List ℕ → List (List ℕ) → Bool
names_it m [] = false
names_it m (n ∷ names) = str_eq n m || names_it m names

unsetenv_loop-unset :
    (names : List (List ℕ)) (env : Env) (m : List ℕ)
    → any_bad names ≡ false
    → ((unsetenv_loop names env).1 ≡ 0)
      × ((unsetenv_loop names env).0 m ≡ (if names_it m names then none else env m))
unfolding unsetenv_loop any_bad
unsetenv_loop-unset [] env m good = (refl, refl)
unsetenv_loop-unset (n ∷ names) env m good =
    let accepted : bad_name n ≡ false = ground arith in
    let others : any_bad names ≡ false = ground arith in
    let fine = (bad_name-false n accepted).1 in
    let rest = unsetenv_loop-unset names (λ k. if str_eq n k then none else env k) m others in
    rw (unsetenv_loop, unsetenv, fine) (rest.0, rest.1 ∙ ground arith)

-- `unsetenv` of some names is all or nothing: if one of them is refused it fails and no variable
-- changes; otherwise it succeeds, none of the names is set then, and the others are as they were.
pub bi_unsetenv_lem :
    (cmd n : List ℕ) (names : List (List ℕ)) (env : Env)
    → (any_bad (n ∷ names) ≡ true) × (bi_unsetenv (cmd ∷ n ∷ names) env ≡ (env, 1))
      ⊎ (any_bad (n ∷ names) ≡ false)
        × ((bi_unsetenv (cmd ∷ n ∷ names) env).1 ≡ 0)
        × ((m : List ℕ)
            → (bi_unsetenv (cmd ∷ n ∷ names) env).0 m
              ≡ (if names_it m (n ∷ names) then none else env m))
unfolding bi_unsetenv
bi_unsetenv_lem cmd n names env = elim (Bool-cases (any_bad (n ∷ names))) [
  | inl bad ↦ rw bad (inl (refl, refl))
  | inr good ↦ rw good (
      inr (
        refl,
        (unsetenv_loop-unset (n ∷ names) env n good).0,
        λ m. (unsetenv_loop-unset (n ∷ names) env m good).1,
      ))
]
