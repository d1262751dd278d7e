-- ===== src/Shell/Aliases/Quotes.antt =====
-- An alias whose value is quoted and comes in several arguments.
use corestack_peky.Common.{
  ℕ, suc, ◌+◌, ◌-◌, ◌<◌, ◌≡◌, refl, ap, ◌∙◌, arith, List, [], ◌∷◌, ◌++◌, none, some, true, false,
  if◌then◌else◌, ◌⊎◌, length, length-append, take-all, append_assoc, append-nil, ◌==◌, ◌||◌,
}
use corestack_peky.Text.{str_eq, split_at, ends_with, chop, ends_with-snoc, chop-snoc, blank, trail}
use corestack_peky.Shell.Aliases.{
  Alias, alias_lookup, set_alias, bi_alias, alias_loop, gather, unquote, closed, in_buffer,
  equals_sign, single_quote, double_quote,
}
use corestack_peky.Shell.Aliases.Lookup.{alias_lookup-set_alias}

-- No word before the last ends with the quote.
abbrev pub NotQuoted : ℕ → List ℕ → List (List ℕ) → Type 0
NotQuoted quote w [] = Unit
NotQuoted quote w (v ∷ ws) = (ends_with quote w ≡ false) × NotQuoted quote v ws

-- Words as arguments, the last one with the closing quote.
abbrev pub close_quote : ℕ → List ℕ → List (List ℕ) → List (List ℕ)
close_quote quote w [] = (w ++ (quote ∷ [])) ∷ []
close_quote quote w (v ∷ ws) = w ∷ close_quote quote v ws

-- The argument with the name, `=` and the opening quote, and the others: `n='w1 … wk'` as
-- `tokenise` reads it.
abbrev pub quoted_args : ℕ → List ℕ → List ℕ → List (List ℕ) → List (List ℕ)
quoted_args quote n w [] = (n ++ (equals_sign ∷ (quote ∷ (w ++ (quote ∷ []))))) ∷ []
quoted_args quote n w (v ∷ ws) = (n ++ (equals_sign ∷ (quote ∷ w))) ∷ close_quote quote v ws

length-close_quote :
    (quote : ℕ) (w : List ℕ) (ws : List (List ℕ)) → length (close_quote quote w ws) ≡ length ws + 1
length-close_quote quote w [] = refl
length-close_quote quote w (v ∷ ws) = omega (arith, length-close_quote quote v ws)

gather-closed :
    (quote : ℕ) (rhs : List ℕ) (used : ℕ) (w : List ℕ) (ws : List (List ℕ))
    → NotQuoted quote w ws
    → length rhs + length w + length (trail ws) + 3 < in_buffer
    → gather quote rhs used (close_quote quote w ws)
      ≡ closed (rhs ++ trail (w ∷ ws)) (used + length ws + 1)
unfolding gather
gather-closed quote rhs used w [] plain short =
    let len = length-append w (quote ∷ []) in
    let last : ends_with quote (w ++ (quote ∷ [])) ≡ true =
      ends_with-snoc quote quote w ∙ ground arith in
    let cut : chop (rhs ++ (blank ∷ (w ++ (quote ∷ [])))) ≡ rhs ++ (blank ∷ w) =
      rw (← append_assoc rhs (blank ∷ w) (quote ∷ [])) (chop-snoc quote (rhs ++ (blank ∷ w))) in
    ground (arith, last, cut, append-nil w, len)
gather-closed quote rhs used w (v ∷ ws) plain short =
    let more = length-append rhs (blank ∷ w) in
    let whole = length-append v (trail ws) in
    let rest =
      gather-closed quote (rhs ++ (blank ∷ w)) (suc used) v ws plain.1
        (omega (arith, more, whole)) in
    let text = append_assoc rhs (blank ∷ w) (trail (v ∷ ws)) in
    let number : suc used + length ws + 1 ≡ used + suc (length ws) + 1 = omega arith in
    ground (arith, plain.0, rest, text, number)

pub split_at-first :
    (c : ℕ) (name rest : List ℕ)
    → split_at c name ≡ none
    → split_at c (name ++ (c ∷ rest)) ≡ some (name, rest)
split_at-first c [] rest h = ground arith
split_at-first c (d ∷ name) rest h = ground (arith, split_at-first c name rest)

alias_loop-skipped :
    (args : List (List ℕ)) (alist : List Alias) → alias_loop (length args) args alist ≡ (alist, 0)
unfolding alias_loop
alias_loop-skipped [] alist = refl
alias_loop-skipped (arg ∷ args) alist = alias_loop-skipped args alist

is_quote :
    (quote : ℕ)
    → (quote ≡ single_quote) ⊎ (quote ≡ double_quote)
    → (quote == single_quote || quote == double_quote) ≡ true
is_quote quote q = ground arith

-- The value in one argument.
unquote-one :
    (quote : ℕ) (w : List ℕ) (args : List (List ℕ))
    → (quote ≡ single_quote) ⊎ (quote ≡ double_quote)
    → unquote (quote ∷ (w ++ (quote ∷ []))) args ≡ closed w 0
unfolding unquote
unquote-one quote w args q =
    let last : ends_with quote (w ++ (quote ∷ [])) ≡ true =
      ends_with-snoc quote quote w ∙ ground arith in
    rw (unquote, is_quote quote q, last) (ap (λ v. closed v 0) (chop-snoc quote w))

-- The value in several.
unquote-more :
    (quote : ℕ) (w v : List ℕ) (ws : List (List ℕ))
    → (quote ≡ single_quote) ⊎ (quote ≡ double_quote)
    → NotQuoted quote w (v ∷ ws)
    → length w + length v + length (trail ws) + 3 < in_buffer
    → unquote (quote ∷ w) (close_quote quote v ws)
      ≡ closed (w ++ trail (v ∷ ws)) (length (close_quote quote v ws))
unfolding unquote
unquote-more quote w v ws q plain short =
    let skip : 0 + length ws + 1 ≡ length (close_quote quote v ws) =
      omega (arith, length-close_quote quote v ws) in
    rw (unquote, is_quote quote q, plain.0)
      (gather-closed quote w 0 v ws plain.1 short ∙ ap (closed (w ++ trail (v ∷ ws))) skip)

alias_loop-quoted :
    (quote : ℕ) (n w : List ℕ) (ws : List (List ℕ)) (alist : List Alias)
    → (quote ≡ single_quote) ⊎ (quote ≡ double_quote)
    → split_at equals_sign n ≡ none
    → NotQuoted quote w ws
    → length (w ++ trail ws) + 2 < in_buffer
    → alias_loop 0 (quoted_args quote n w ws) alist ≡ (set_alias n (w ++ trail ws) alist, 0)
unfolding alias_loop
alias_loop-quoted quote n w [] alist q name_ok plain short =
    let size = length-append w (quote ∷ []) in
    let same : w ++ [] ≡ w = append-nil w in
    let parts = split_at-first equals_sign n (quote ∷ (w ++ (quote ∷ []))) name_ok in
    let fits =
      take-all (in_buffer - 1) (quote ∷ (w ++ (quote ∷ [])))
        (omega (arith, size, ap length same)) in
    rw (alias_loop, parts, fits, unquote-one quote w [] q, same) refl
alias_loop-quoted quote n w (v ∷ ws) alist q name_ok plain short =
    let size = length-append w (trail (v ∷ ws)) in
    let more = length-append v (trail ws) in
    let parts = split_at-first equals_sign n (quote ∷ w) name_ok in
    let fits = take-all (in_buffer - 1) (quote ∷ w) (omega (arith, size)) in
    let read = unquote-more quote w v ws q plain (omega (arith, size, more)) in
    rw (alias_loop, parts, fits, read)
      (alias_loop-skipped (close_quote quote v ws) (set_alias n (w ++ trail (v ∷ ws)) alist))

-- `alias n='w1 … wk'`, whose value comes in one argument or in several: if the name has no `=`, no
-- word before the last ends with the quote, and the text fits the buffer, the command succeeds. The
-- alias is then the words with a blank between them, and every other name keeps its value.
pub bi_alias-quoted :
    (quote : ℕ) (cmd n w : List ℕ) (ws : List (List ℕ)) (alist : List Alias)
    → (quote ≡ single_quote) ⊎ (quote ≡ double_quote)
    → split_at equals_sign n ≡ none
    → NotQuoted quote w ws
    → length (w ++ trail ws) + 2 < in_buffer
    → let (alist', status) = bi_alias (cmd ∷ quoted_args quote n w ws) alist in
      (status ≡ 0)
      × ((m : List ℕ)
          → alias_lookup m alist'
            ≡ (if str_eq n m then some (w ++ trail ws) else alias_lookup m alist))
unfolding bi_alias
bi_alias-quoted quote cmd n w ws alist q name_ok plain short =
    rw (alias_loop-quoted quote n w ws alist q name_ok plain short)
      (refl, λ m. alias_lookup-set_alias m n (w ++ trail ws) alist)
