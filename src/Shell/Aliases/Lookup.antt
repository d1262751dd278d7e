-- ===== src/Shell/Aliases/Lookup.antt =====
-- What the alias list answers after an alias is set or taken out.
use corestack_peky.Common.{
  ℕ, ◌≡◌, refl, arith, List, [], ◌∷◌, none, some, true, false, if◌then◌else◌, Bool-cases,
  Option-cases, inl, inr,
}
use corestack_peky.Text.{str_eq, str_eq_refl, str_eq→eq}
use corestack_peky.Shell.Aliases.{Alias, alias_find, alias_lookup, revalue, set_alias, unlink}

-- No two aliases of the list share a name.
abbrev pub Distinct : List Alias → Type 0
Distinct [] = Unit
Distinct (a ∷ alist) = (alias_find a.name alist ≡ none) × Distinct alist

str_eq-same : (b m n : List ℕ) → str_eq b m ≡ true → str_eq b n ≡ str_eq m n
str_eq-same b m n h = rw (str_eq→eq b m h)

str_eq-apart : (b m n : List ℕ) → str_eq b m ≡ false → str_eq b n ≡ true → str_eq m n ≡ false
str_eq-apart b m n off on = elim (Bool-cases (str_eq m n)) [
  | inl h ↦ absurd (grind (arith, str_eq→eq b n on, str_eq→eq m n h, str_eq_refl b))
  | inr h ↦ h
]

pub alias_lookup-revalue :
    (n m rhs : List ℕ) (alist : List Alias) {a : Alias}
    → alias_find m alist ≡ some a
    → alias_lookup n (revalue m rhs alist) ≡ (if str_eq m n then some rhs else alias_lookup n alist)
unfolding alias_lookup alias_find revalue
alias_lookup-revalue n m rhs [] {a} found = absurd (ground arith)
alias_lookup-revalue n m rhs (b ∷ alist) {a} found = ground (
  arith,
  str_eq-same b.name m n,
  str_eq-apart b.name m n,
  λ (h : alias_find m alist ≡ some a). alias_lookup-revalue n m rhs alist h,
)

pub alias_lookup-set_alias :
    (n m rhs : List ℕ) (alist : List Alias)
    → alias_lookup n (set_alias m rhs alist)
      ≡ (if str_eq m n then some rhs else alias_lookup n alist)
unfolding set_alias alias_lookup alias_find
alias_lookup-set_alias n m rhs alist = elim (Option-cases (alias_find m alist)) [
  | inl fresh ↦ rw (set_alias, fresh) (ground arith)
  | inr (a, found) ↦ rw (set_alias, found) (alias_lookup-revalue n m rhs alist found)
]

alias_find-revalue-none :
    (n m rhs : List ℕ) (alist : List Alias)
    → alias_find n alist ≡ none
    → alias_find n (revalue m rhs alist) ≡ none
unfolding alias_find revalue
alias_find-revalue-none n m rhs [] h = refl
alias_find-revalue-none n m rhs (b ∷ alist) h =
    ground (arith, alias_find-revalue-none n m rhs alist)

revalue-Distinct :
    (m rhs : List ℕ) (alist : List Alias) → Distinct alist → Distinct (revalue m rhs alist)
unfolding revalue
revalue-Distinct m rhs [] d = d
revalue-Distinct m rhs (b ∷ alist) d = elim (Bool-cases (str_eq b.name m)) [
  | inl same ↦ rw (revalue, same) d
  | inr other ↦
      rw (revalue, other)
        (alias_find-revalue-none b.name m rhs alist d.0, revalue-Distinct m rhs alist d.1)
]

pub set_alias-Distinct :
    (m rhs : List ℕ) (alist : List Alias) → Distinct alist → Distinct (set_alias m rhs alist)
unfolding set_alias
set_alias-Distinct m rhs alist d = elim (Option-cases (alias_find m alist)) [
  | inl fresh ↦ rw (set_alias, fresh) (fresh, d)
  | inr (a, found) ↦ rw (set_alias, found) (revalue-Distinct m rhs alist d)
]

alias_find-unlink-none :
    (n m : List ℕ) (alist : List Alias)
    → alias_find n alist ≡ none
    → alias_find n (unlink m alist) ≡ none
unfolding alias_find unlink
alias_find-unlink-none n m [] h = refl
alias_find-unlink-none n m (b ∷ alist) h = ground (arith, alias_find-unlink-none n m alist)

pub unlink-Distinct : (m : List ℕ) (alist : List Alias) → Distinct alist → Distinct (unlink m alist)
unfolding unlink
unlink-Distinct m [] d = d
unlink-Distinct m (b ∷ alist) d = elim (Bool-cases (str_eq b.name m)) [
  | inl same ↦ rw (unlink, same) d.1
  | inr other ↦
      rw (unlink, other) (alias_find-unlink-none b.name m alist d.0, unlink-Distinct m alist d.1)
]

pub alias_lookup-unlink :
    (n m : List ℕ) (alist : List Alias)
    → Distinct alist
    → alias_lookup n (unlink m alist) ≡ (if str_eq m n then none else alias_lookup n alist)
unfolding alias_lookup alias_find unlink
alias_lookup-unlink n m [] d = ground arith
alias_lookup-unlink n m (b ∷ alist) d = ground (
  arith,
  str_eq-same b.name m n,
  str_eq-apart b.name m n,
  alias_lookup-unlink n m alist d.1,
  d.0,
  str_eq→eq b.name n,
)
