-- ===== src/Shell/Aliases.antt =====
-- The alias list of src/tetrish/builtin.c: `alias_find`, `alias_lookup`, `bi_alias`, `bi_unalias`.
pub mod Lookup
pub mod Commands
pub mod Quotes
use corestack_peky.Common.{
  ℕ, zero, suc, ◌+◌, ◌-◌, ◌≡◌, List, [], ◌∷◌, ◌++◌, Option, none, some, Bool, true, false, ◌&&◌,
  ◌||◌, ltb, leb, ◌==◌, not, if◌then◌else◌, length, take,
}
use corestack_peky.Text.{str_eq, split_at, ends_with, chop, blank}

abbrev pub in_buffer : ℕ
in_buffer = 1024

-- `=`, `'` and `"`
abbrev pub equals_sign : ℕ
equals_sign = 61

abbrev pub single_quote : ℕ
single_quote = 39

abbrev pub double_quote : ℕ
double_quote = 34

pub record Alias : Type 0 where
  pub name : List ℕ
  pub value : List ℕ

unfoldable pub alias_find : List ℕ → List Alias → Option Alias
alias_find n [] = none
alias_find n (a ∷ alist) = let rest = alias_find n alist in if str_eq a.name n then some a else rest

unfoldable pub alias_lookup : List ℕ → List Alias → Option (List ℕ)
alias_lookup n alist = elim (alias_find n alist) [ none ↦ none | some a ↦ some a.value ]

-- The value of the alias that `alias_find` finds is replaced.
unfoldable pub revalue : List ℕ → List ℕ → List Alias → List Alias
revalue n rhs [] = []
revalue n rhs (a ∷ alist) =
    if str_eq a.name n then record a { value = rhs } ∷ alist else a ∷ revalue n rhs alist

-- Add or update an alias.
unfoldable pub set_alias : List ℕ → List ℕ → List Alias → List Alias
set_alias n rhs alist = elim (alias_find n alist) [
  | none ↦ record { name = n; value = rhs } ∷ alist
  | some a ↦ revalue n rhs alist
]

-- A quoted value: refused, or its text and how many arguments it went on for.
pub data Quoted : Type 0 where
  refused : Quoted
  closed : List ℕ → ℕ → Quoted

-- The loop over the arguments behind the one with the opening quote, `used` of them so far. The
-- arguments come from `tokenise`, so none is empty.
unfoldable pub gather : ℕ → List ℕ → ℕ → List (List ℕ) → Quoted
gather quote rhs used [] = refused
gather quote rhs used (arg ∷ args) =
    let more = rhs ++ (blank ∷ arg) in
    let rest = gather quote more (suc used) args in
    if leb in_buffer (length rhs + length arg + 2)
    then refused
    else if ends_with quote arg
    then closed (chop more) (suc used)
    else rest

-- The value behind the `=`: `rhs`, and the arguments that follow.
unfoldable pub unquote : List ℕ → List (List ℕ) → Quoted
unquote [] args = closed [] 0
unquote (c ∷ rhs) args =
    let far = gather c rhs 0 args in
    if c == single_quote || c == double_quote
    then (if ends_with c rhs then closed (chop rhs) 0 else far)
    else closed (c ∷ rhs) 0

-- The loop over the arguments, `skip` of which belong to a value that was read already; the alias
-- list and the status.
unfoldable pub alias_loop : ℕ → List (List ℕ) → List Alias → List Alias × ℕ
alias_loop skip [] alist = (alist, 0)
alias_loop (suc skip) (arg ∷ args) alist = alias_loop skip args alist
alias_loop zero (arg ∷ args) alist = elim (split_at equals_sign arg) [
  | none ↦ alias_loop 0 args alist
  | some p ↦ elim (unquote (take (in_buffer - 1) p.1) args) [
    | refused ↦ (alist, 1)
    | closed rhs used ↦ alias_loop used args (set_alias p.0 rhs alist)
  ]
]

-- `argv[0]` is the name of the command. Without arguments the list is printed.
unfoldable pub bi_alias : List (List ℕ) → List Alias → List Alias × ℕ
bi_alias [] alist = (alist, 0)
bi_alias (cmd ∷ args) alist = alias_loop 0 args alist

-- The first alias with the name is taken out.
unfoldable pub unlink : List ℕ → List Alias → List Alias
unlink n [] = []
unlink n (a ∷ alist) = if str_eq a.name n then alist else a ∷ unlink n alist

unfoldable pub bi_unalias : List (List ℕ) → List Alias → List Alias × ℕ
bi_unalias (cmd ∷ n ∷ []) alist = elim (alias_find n alist) [
  | none ↦ (alist, 1)
  | some a ↦ (unlink n alist, 0)
]
bi_unalias argv alist = (alist, 1)
