-- ===== src/Shell/Tests.antt =====
-- Runs of the history, the aliases and the tokeniser on a few lines.
use corestack_peky.Common.{ℕ, ◌+◌, ◌≡◌, inl, refl, arith, List, [], ◌∷◌, ◌++◌, none, some}
use corestack_peky.Text.{trail}
use corestack_peky.Shell.History.{history, hist_up, hist_down, ups, enter, nonempty, get}
use corestack_peky.Shell.History.Recall.{history_recall, hist_up-past_oldest}
use corestack_peky.Shell.Aliases.{
  Alias, alias_find, alias_lookup, bi_alias, alias_loop, unquote, gather, set_alias,
}
use corestack_peky.Shell.Words.{words, tokenise, expand_alias}
use corestack_peky.Shell.Words.Tokens.{AllWords, tokenise-trail}
use corestack_peky.Shell.Words.Expand.{expand_alias-bi_alias}

-- "ls", "-l", "-a", "ll", "alias", "src"
abbrev ls : List ℕ
ls = 108 ∷ 115 ∷ []

abbrev dash_l : List ℕ
dash_l = 45 ∷ 108 ∷ []

abbrev dash_a : List ℕ
dash_a = 45 ∷ 97 ∷ []

abbrev ll : List ℕ
ll = 108 ∷ 108 ∷ []

abbrev alias_word : List ℕ
alias_word = 97 ∷ 108 ∷ 105 ∷ 97 ∷ 115 ∷ []

abbrev src_word : List ℕ
src_word = 115 ∷ 114 ∷ 99 ∷ []

-- three lines, the last one first; the second is empty
abbrev lines : List (List ℕ)
lines = ls ∷ [] ∷ ll ∷ []

abbrev one_alias : List Alias
one_alias = record { name = ls; value = ll } ∷ []

three-AllWords : AllWords (ls ∷ dash_l ∷ dash_a ∷ [])
three-AllWords = ((refl, (refl, tt)), ((refl, (refl, tt)), ((refl, (refl, tt)), tt)))

shown_first : (hist_up (enter lines)).1 ≡ some ls
unfolding hist_up history
shown_first = refl

history_recall_example : (hist_up (ups 1 (enter lines))).1 ≡ get (nonempty lines) 1
history_recall_example = history_recall lines 1 (omega arith) (omega arith)

hist_up-past_oldest_example :
    let top = ups 2 (enter lines) in
    let past = hist_up top in
    (past.1 ≡ none) × ¬ (past.0.hcur ≡ top.hcur) × ((hist_down past.0).1 ≡ get (nonempty lines) 1)
hist_up-past_oldest_example = hist_up-past_oldest lines 1 refl (omega arith)

-- alias ll='ls -l -a'
abbrev alias_argv : List (List ℕ)
alias_argv = alias_word ∷ (ll ++ (61 ∷ (39 ∷ ls))) ∷ ((dash_l ∷ []) ++ ((dash_a ++ (39 ∷ [])) ∷ []))

alias_run : alias_lookup ll (bi_alias alias_argv []).0 ≡ some (ls ++ trail (dash_l ∷ dash_a ∷ []))
unfolding bi_alias alias_lookup alias_find alias_loop unquote gather set_alias
alias_run = refl

alias_unclosed : (bi_alias (alias_word ∷ (ll ++ (61 ∷ (39 ∷ ls))) ∷ []) one_alias) ≡ (one_alias, 1)
unfolding bi_alias alias_loop unquote gather
alias_unclosed = refl

tokens : tokenise (32 ∷ ls ++ (9 ∷ 32 ∷ dash_l)) 128 ≡ ls ∷ dash_l ∷ []
unfolding tokenise words
tokens = refl

tokenise-trail_example :
    tokenise (ls ++ trail (dash_l ∷ dash_a ∷ [])) 128 ≡ ls ∷ dash_l ∷ dash_a ∷ []
tokenise-trail_example = tokenise-trail ls (dash_l ∷ dash_a ∷ []) 128 three-AllWords (omega arith)

expand_alias-bi_alias_example :
    expand_alias (ll ∷ src_word ∷ []) (bi_alias alias_argv one_alias).0 128
    ≡ (ls ∷ ((dash_l ∷ dash_a ∷ []) ++ (src_word ∷ [])), 2 + 1 + 1)
expand_alias-bi_alias_example =
    expand_alias-bi_alias 39 alias_word ll ls (dash_l ∷ dash_a ∷ []) (src_word ∷ []) one_alias 128
      (inl refl) refl (refl, (refl, tt)) three-AllWords (omega arith) (omega arith) (omega arith)

-- alias ll='ls'
abbrev one_word_argv : List (List ℕ)
one_word_argv = alias_word ∷ (ll ++ (61 ∷ (39 ∷ (ls ++ (39 ∷ []))))) ∷ []

alias_one_word : alias_lookup ll (bi_alias one_word_argv []).0 ≡ some ls
unfolding bi_alias alias_lookup alias_find alias_loop unquote set_alias
alias_one_word = refl
