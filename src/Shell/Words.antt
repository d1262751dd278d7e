-- ===== src/Shell/Words.antt =====
-- The words of a line and their aliases (src/tetrish/shell.c): `tokenise` and `expand_alias`.
pub mod Tokens
pub mod Expand
use corestack_peky.Common.{
  ℕ, zero, suc, ◌+◌, ◌-◌, ◌≡◌, List, [], ◌∷◌, ◌++◌, Option, none, some, Bool, true, false, ◌||◌,
  leb, ◌==◌, if◌then◌else◌, length, take,
}
use corestack_peky.Shell.Aliases.{Alias, alias_lookup, in_buffer}
use corestack_peky.Text.{blank}

abbrev pub max_args : ℕ
max_args = 128

-- the delimiters " \t"
abbrev pub is_delimiter : ℕ → Bool
is_delimiter c = (c == blank) || (c == 9)

-- What `strtok` answers in turn; `cur` is the word that is being read.
unfoldable pub words : List ℕ → List ℕ → List (List ℕ)
words [] [] = []
words (d ∷ cur) [] = (d ∷ cur) ∷ []
words [] (c ∷ line) = if is_delimiter c then words [] line else words (c ∷ []) line
words (d ∷ cur) (c ∷ line) =
    if is_delimiter c then (d ∷ cur) ∷ words [] line else words (d ∷ cur ++ (c ∷ [])) line

-- The loop stops when `argc + 1` is `cap`; a last place stays for NULL.
unfoldable pub tokenise : List ℕ → ℕ → List (List ℕ)
tokenise line cap = take (cap - 1) (words [] line)

-- `argv` behind the call, and the number it answers.
unfoldable pub expand_alias : List (List ℕ) → List Alias → ℕ → List (List ℕ) × ℕ
expand_alias [] alist cap = ([], 0)
expand_alias (cmd ∷ args) alist cap = elim (alias_lookup cmd alist) [
  | none ↦ (cmd ∷ args, suc (length args))
  | some exp ↦
      let v = tokenise (take (in_buffer - 1) exp) max_args in
      if leb cap (length v + length args) || leb (max_args - 1) (length v)
      then (cmd ∷ args, 0)
      else (v ++ args, length v + length args)
]
