-- ===== src/Shell/Words/Expand.antt =====
-- What `expand_alias` makes of a command line.
use corestack_peky.Common.{
  ℕ, ◌+◌, ◌-◌, ◌<◌, ◌≡◌, ◌⊎◌, inl, inr, refl, ap, sym, ◌∙◌, arith, List, ◌∷◌, ◌++◌, false,
  Bool-cases, Option-cases, length, length-append, take, take-all, leb, ◌||◌, none, some,
}
use corestack_peky.Text.{trail, split_at, str_eq_refl}
use corestack_peky.Shell.Aliases.{
  Alias, alias_lookup, bi_alias, in_buffer, equals_sign, single_quote, double_quote,
}
use corestack_peky.Shell.Aliases.Quotes.{NotQuoted, quoted_args, bi_alias-quoted}
use corestack_peky.Shell.Words.{tokenise, expand_alias, max_args}
use corestack_peky.Shell.Words.Tokens.{AllWords, tokenise-trail}

-- `expand_alias` on a command with arguments: either it refuses with 0 and `argv` is unchanged, or
-- the number it answers is that of the words in `argv`, which stay below `cap` if they did before.
-- A command that is no alias is unchanged.
pub expand_alias_lem :
    (cmd : List ℕ) (args : List (List ℕ)) (alist : List Alias) (cap : ℕ)
    → length args + 1 < cap
    → let (argv', argc) = expand_alias (cmd ∷ args) alist cap in
      (argc < cap)
      × ((argc ≡ 0) × (argv' ≡ cmd ∷ args) ⊎ (argc ≡ length argv'))
      × (alias_lookup cmd alist ≡ none → (argv' ≡ cmd ∷ args) × (argc ≡ length args + 1))
unfolding expand_alias
expand_alias_lem cmd args alist cap room = elim (Option-cases (alias_lookup cmd alist)) [
  | inl o ↦ rw (expand_alias, o) (omega arith, inr refl, λ e. (refl, omega arith))
  | inr (exp, o) ↦
      let v = tokenise (take (in_buffer - 1) exp) max_args in
      elim (Bool-cases (leb cap (length v + length args) || leb (max_args - 1) (length v))) [
        | inl long ↦
            rw (expand_alias, o, long) (omega arith, inl (refl, refl), λ e. absurd (ground arith))
        | inr short ↦
            rw (expand_alias, o, short)
              (ground (arith, short), inr (sym (length-append v args)), λ e. absurd (ground arith))
      ]
]

expand_alias-value :
    (cmd w : List ℕ) (ws args : List (List ℕ)) (alist : List Alias) (cap : ℕ)
    → alias_lookup cmd alist ≡ some (w ++ trail ws)
    → length (w ++ trail ws) < in_buffer
    → AllWords (w ∷ ws)
    → length ws + 2 < max_args
    → length ws + length args + 1 < cap
    → expand_alias (cmd ∷ args) alist cap ≡ (w ∷ (ws ++ args), length (w ∷ (ws ++ args)))
unfolding expand_alias
expand_alias-value cmd w ws args alist cap held fits a few room =
    let whole = take-all (in_buffer - 1) (w ++ trail ws) (omega arith) in
    let read = tokenise-trail w ws max_args a (omega arith) in
    let count = length-append ws args in
    let long : (leb cap (length (w ∷ ws) + length args) || leb (max_args - 1) (length (w ∷ ws)))
        ≡ false =
      ground arith in
    rw (expand_alias, held, whole, read, long)
      (ap (λ k. (w ∷ (ws ++ args), k)) (omega (arith, count)))

-- What `alias n='w1 … wk'`, with single or double quotes, sets is what a later `n args` runs: the
-- words of the value, one or more, then the arguments. The name has no `=`, no word before the last
-- ends with the quote, the text fits the buffer and the words fit `argv`.
pub expand_alias-bi_alias :
    (quote : ℕ) (cmd n w : List ℕ) (ws args : List (List ℕ)) (alist : List Alias) (cap : ℕ)
    → (quote ≡ single_quote) ⊎ (quote ≡ double_quote)
    → split_at equals_sign n ≡ none
    → NotQuoted quote w ws
    → AllWords (w ∷ ws)
    → length (w ++ trail ws) + 2 < in_buffer
    → length ws + 2 < max_args
    → length ws + length args + 1 < cap
    → expand_alias (n ∷ args) (bi_alias (cmd ∷ quoted_args quote n w ws) alist).0 cap
      ≡ (w ∷ (ws ++ args), length ws + length args + 1)
expand_alias-bi_alias quote cmd n w ws args alist cap q name_ok plain a fits few room =
    let set = (bi_alias-quoted quote cmd n w ws alist q name_ok plain fits).1 n in
    let held : alias_lookup n (bi_alias (cmd ∷ quoted_args quote n w ws) alist).0
        ≡ some (w ++ trail ws) =
      set ∙ rw (str_eq_refl n) in
    expand_alias-value n w ws args _ cap held (omega arith) a few room
    ∙ ap (λ k. (w ∷ (ws ++ args), k)) (omega (arith, length-append ws args))
