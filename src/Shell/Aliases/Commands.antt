-- ===== src/Shell/Aliases/Commands.antt =====
-- What the commands `alias` and `unalias` do to the alias list.
use corestack_peky.Common.{
  ℕ, zero, suc, ◌-◌, ◌≡◌, refl, ◌∙◌, arith, List, [], ◌∷◌, none, some, false, Option-cases, inl,
  inr, ◌⊎◌, take, ◌≢◌,
}
use corestack_peky.Text.{str_eq, str_eq_refl, split_at}
use corestack_peky.Shell.Aliases.{
  Alias, alias_find, alias_lookup, set_alias, bi_alias, bi_unalias, alias_loop, unquote, Quoted,
  refused, closed, in_buffer, equals_sign,
}
use corestack_peky.Shell.Aliases.Lookup.{
  Distinct, set_alias-Distinct, unlink-Distinct, alias_lookup-unlink,
}

Quoted-cases :
    (q : Quoted) → (q ≡ refused) ⊎ ((text : List ℕ) × (used : ℕ) × (q ≡ closed text used))
Quoted-cases refused = inl refl
Quoted-cases (closed text used) = inr (text, used, refl)

unquote-cases :
    (rhs : List ℕ) (args : List (List ℕ))
    → (unquote rhs args ≡ refused)
      ⊎ ((text : List ℕ) × (used : ℕ) × (unquote rhs args ≡ closed text used))
unquote-cases rhs args = Quoted-cases (unquote rhs args)

alias_loop-Distinct :
    (skip : ℕ) (args : List (List ℕ)) (alist : List Alias)
    → Distinct alist
    → Distinct (alias_loop skip args alist).0
unfolding alias_loop
alias_loop-Distinct skip [] alist d = d
alias_loop-Distinct (suc skip) (arg ∷ args) alist d = alias_loop-Distinct skip args alist d
alias_loop-Distinct zero (arg ∷ args) alist d = elim (Option-cases (split_at equals_sign arg)) [
  | inl o ↦ rw (alias_loop, o) (alias_loop-Distinct 0 args alist d)
  | inr (p, o) ↦ elim (unquote-cases (take (in_buffer - 1) p.1) args) [
    | inl r ↦ rw (alias_loop, o, r) d
    | inr (rhs, used, r) ↦
        rw (alias_loop, o, r)
          (alias_loop-Distinct used args (set_alias p.0 rhs alist)
            (set_alias-Distinct p.0 rhs alist d))
  ]
]

bi_alias-Distinct :
    (argv : List (List ℕ)) (alist : List Alias) → Distinct alist → Distinct (bi_alias argv alist).0
unfolding bi_alias
bi_alias-Distinct [] alist d = d
bi_alias-Distinct (cmd ∷ args) alist d = alias_loop-Distinct 0 args alist d

bi_unalias-Distinct :
    (argv : List (List ℕ)) (alist : List Alias)
    → Distinct alist
    → Distinct (bi_unalias argv alist).0
unfolding bi_unalias
bi_unalias-Distinct [] alist d = d
bi_unalias-Distinct (cmd ∷ []) alist d = d
bi_unalias-Distinct (cmd ∷ n ∷ []) alist d = elim (Option-cases (alias_find n alist)) [
  | inl o ↦ rw (bi_unalias, o) d
  | inr (a, o) ↦ rw (bi_unalias, o) (unlink-Distinct n alist d)
]
bi_unalias-Distinct (cmd ∷ n ∷ m ∷ args) alist d = d

-- The names in the alias list stay distinct, whatever arguments `alias` and `unalias` get.
bi_alias-bi_unalias-Distinct :
    (argv : List (List ℕ)) (alist : List Alias)
    → Distinct alist
    → Distinct (bi_alias argv alist).0 × Distinct (bi_unalias argv alist).0
bi_alias-bi_unalias-Distinct argv alist d =
    (bi_alias-Distinct argv alist d, bi_unalias-Distinct argv alist d)

-- `unalias` of a name: it fails and changes nothing if there is no such alias, and it succeeds and
-- leaves no alias of that name if there is; the other names keep their values.
pub bi_unalias_lem :
    (cmd n : List ℕ) (alist : List Alias)
    → Distinct alist
    → let (alist', status) = bi_unalias (cmd ∷ n ∷ []) alist in
      ((alias_lookup n alist ≡ none) × (alist' ≡ alist) × (status ≡ 1)
        ⊎ (alias_lookup n alist ≢ none) × (status ≡ 0))
      × (alias_lookup n alist' ≡ none)
      × ((m : List ℕ) → str_eq n m ≡ false → alias_lookup m alist' ≡ alias_lookup m alist)
unfolding bi_unalias alias_lookup
bi_unalias_lem cmd n alist d = elim (Option-cases (alias_find n alist)) [
  | inl o ↦
      let free : alias_lookup n alist ≡ none = rw (alias_lookup, o) in
      rw (bi_unalias, o) (inl (free, refl, refl), free, λ m other. refl)
  | inr (a, o) ↦
      let held : alias_lookup n alist ≡ some a.value = rw (alias_lookup, o) in
      rw (bi_unalias, o)
        (
          inr (λ e. absurd (grind (arith, held, e)), refl),
          alias_lookup-unlink n n alist d ∙ rw (str_eq_refl n),
          λ m other. alias_lookup-unlink m n alist d ∙ rw other,
        )
]
