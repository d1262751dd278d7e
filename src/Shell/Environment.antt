-- ===== src/Shell/Environment.antt =====
-- The environment commands of src/tetrish/builtin.c: `bad_name`, `bi_setenv`, `bi_unsetenv`. The C
-- library's `setenv` and `unsetenv` refuse a name that is empty or has a `=`.
pub mod Variables
use corestack_peky.Common.{
  ℕ, List, [], ◌∷◌, Option, none, some, Bool, true, false, ◌==◌, ◌&&◌, ◌||◌, not, if◌then◌else◌,
}
use corestack_peky.Text.{str_eq, split_at, ends_with, chop, is_alnum}
use corestack_peky.Shell.Aliases.{equals_sign, single_quote, double_quote}

-- The value of each variable that is set.
abbrev pub Env : Type 0
Env = List ℕ → Option (List ℕ)

abbrev pub has_equals : List ℕ → Bool
has_equals s = elim (split_at equals_sign s) [ none ↦ false | some p ↦ true ]

abbrev pub is_empty : List ℕ → Bool
is_empty [] = true
is_empty (c ∷ s) = false

-- setenv(n, v, 1); `none` is -1.
abbrev pub setenv : List ℕ → List ℕ → Env → Option Env
setenv n v env =
    if is_empty n || has_equals n then none else some (λ m. if str_eq n m then some v else env m)

abbrev pub unsetenv : List ℕ → Env → Option Env
unsetenv n env =
    if is_empty n || has_equals n then none else some (λ m. if str_eq n m then none else env m)

-- The loop over the characters: one is neither a letter or digit nor `_`.
unfoldable pub bad_characters : List ℕ → Bool
bad_characters [] = false
bad_characters (c ∷ s) =
    let rest = bad_characters s in if not (is_alnum c) && not (c == 95) then true else rest

unfoldable pub bad_name : List ℕ → Bool
bad_name s = if is_empty s || has_equals s then true else bad_characters s

-- A value without the quotes around it.
unfoldable pub strip_quotes : List ℕ → List ℕ
strip_quotes [] = []
strip_quotes (c ∷ []) = c ∷ []
strip_quotes (c ∷ d ∷ s) =
    if (c == double_quote || c == single_quote) && ends_with c (d ∷ s)
    then chop (d ∷ s)
    else c ∷ d ∷ s

-- The loop over the arguments; the environment and the status.
unfoldable pub setenv_loop : List (List ℕ) → Env → Env × ℕ
setenv_loop [] env = (env, 0)
setenv_loop (arg ∷ args) env = elim (split_at equals_sign arg) [
  | none ↦ (env, 1)
  | some p ↦ if bad_name p.0 then (env, 1) else elim (setenv p.0 (strip_quotes p.1) env) [
    | none ↦ (env, 1)
    | some env' ↦ setenv_loop args env'
  ]
]

unfoldable pub bi_setenv : List (List ℕ) → Env → Env × ℕ
bi_setenv [] env = (env, 1)
bi_setenv (cmd ∷ []) env = (env, 1)
bi_setenv (cmd ∷ arg ∷ args) env = setenv_loop (arg ∷ args) env

-- The first loop of `bi_unsetenv`: one of the names is refused.
unfoldable pub any_bad : List (List ℕ) → Bool
any_bad [] = false
any_bad (n ∷ names) = let rest = any_bad names in if bad_name n then true else rest

unfoldable pub unsetenv_loop : List (List ℕ) → Env → Env × ℕ
unsetenv_loop [] env = (env, 0)
unsetenv_loop (n ∷ names) env = elim (unsetenv n env) [
  | none ↦ (env, 1)
  | some env' ↦ unsetenv_loop names env'
]

unfoldable pub bi_unsetenv : List (List ℕ) → Env → Env × ℕ
bi_unsetenv [] env = (env, 1)
bi_unsetenv (cmd ∷ []) env = (env, 1)
bi_unsetenv (cmd ∷ n ∷ names) env =
    let rest = unsetenv_loop (n ∷ names) env in if any_bad (n ∷ names) then (env, 1) else rest
