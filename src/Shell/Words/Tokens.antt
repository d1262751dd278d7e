-- ===== src/Shell/Words/Tokens.antt =====
-- What `tokenise` answers.
use corestack_peky.Common.{
  ℕ, zero, suc, ◌+◌, ◌-◌, ◌<◌, ◌≤◌, ◌≡◌, refl, ap, ◌∙◌, arith, List, [], ◌∷◌, ◌++◌, false,
  Bool-cases, inl, inr, length, take, take-all, append_assoc, append-nil,
}
use corestack_peky.Text.{trail}
use corestack_peky.Shell.Words.{is_delimiter, words, tokenise}

-- A string without delimiters.
abbrev pub Plain : List ℕ → Type 0
Plain [] = Unit
Plain (c ∷ w) = (is_delimiter c ≡ false) × Plain w

-- A string that `strtok` can answer.
abbrev pub IsWord : List ℕ → Type 0
IsWord [] = ⊥
IsWord (c ∷ w) = Plain (c ∷ w)

abbrev pub AllWords : List (List ℕ) → Type 0
AllWords [] = Unit
AllWords (w ∷ ws) = IsWord w × AllWords ws

Plain-snoc : (cur : List ℕ) (c : ℕ) → Plain cur → is_delimiter c ≡ false → Plain (cur ++ (c ∷ []))
Plain-snoc [] c p h = (h, tt)
Plain-snoc (d ∷ cur) c p h = (p.0, Plain-snoc cur c p.1 h)

words-AllWords : (cur line : List ℕ) → Plain cur → AllWords (words cur line)
unfolding words
words-AllWords [] [] p = tt
words-AllWords (d ∷ cur) [] p = (p, tt)
words-AllWords [] (c ∷ line) p = elim (Bool-cases (is_delimiter c)) [
  | inl gap ↦ rw (words, gap) (words-AllWords [] line tt)
  | inr in_word ↦ rw (words, in_word) (words-AllWords (c ∷ []) line (in_word, tt))
]
words-AllWords (d ∷ cur) (c ∷ line) p = elim (Bool-cases (is_delimiter c)) [
  | inl gap ↦ rw (words, gap) (p, words-AllWords [] line tt)
  | inr in_word ↦
      rw (words, in_word)
        (words-AllWords (d ∷ cur ++ (c ∷ [])) line (Plain-snoc (d ∷ cur) c p in_word))
]

take-AllWords : (n : ℕ) (ws : List (List ℕ)) → AllWords ws → AllWords (take n ws)
take-AllWords zero ws a = tt
take-AllWords (suc n) [] a = tt
take-AllWords (suc n) (w ∷ ws) a = (a.0, take-AllWords n ws a.1)

length-take : {A : Type 0} (n : ℕ) (xs : List A) → length (take n xs) ≤ n
length-take zero xs = omega arith
length-take (suc n) [] = omega arith
length-take (suc n) (x ∷ xs) = omega (arith, length-take n xs)

words-Plain :
    (d : ℕ) (cur w rest : List ℕ)
    → Plain w
    → words (d ∷ cur) (w ++ rest) ≡ words (d ∷ cur ++ w) rest
unfolding words
words-Plain d cur [] rest p = rw (append-nil cur)
words-Plain d cur (c ∷ w) rest p =
    rw (words, p.0) (words-Plain d (cur ++ (c ∷ [])) w rest p.1 ∙ rw (append_assoc cur (c ∷ []) w))

words-trail-flush :
    (d : ℕ) (cur : List ℕ) (ws : List (List ℕ))
    → words (d ∷ cur) (trail ws) ≡ (d ∷ cur) ∷ words [] (trail ws)
unfolding words
words-trail-flush d cur [] = refl
words-trail-flush d cur (w ∷ ws) = refl

pub words-word :
    (w : List ℕ) (ws : List (List ℕ))
    → IsWord w
    → words [] (w ++ trail ws) ≡ w ∷ words [] (trail ws)
unfolding words
words-word [] ws h = absurd h
words-word (c ∷ w) ws h =
    rw (words, h.0) (words-Plain c [] w (trail ws) h.1 ∙ words-trail-flush c w ws)

pub words-trail : (ws : List (List ℕ)) → AllWords ws → words [] (trail ws) ≡ ws
unfolding words
words-trail [] a = refl
words-trail (w ∷ ws) a = words-word w ws a.0 ∙ ap (λ r. w ∷ r) (words-trail ws a.1)

-- `tokenise` answers words, which are not empty and have no blank or tab in them, and fewer than
-- `cap` of them, so that the closing NULL has a place.
pub tokenise-AllWords :
    (line : List ℕ) (cap : ℕ)
    → 0 < cap
    → AllWords (tokenise line cap) × (length (tokenise line cap) < cap)
unfolding tokenise
tokenise-AllWords line cap h = (
  take-AllWords (cap - 1) (words [] line) (words-AllWords [] line tt),
  omega (arith, length-take (cap - 1) (words [] line)),
)

-- Words that are written with a blank between them are read back, if there is room for them.
pub tokenise-trail :
    (w : List ℕ) (ws : List (List ℕ)) (cap : ℕ)
    → AllWords (w ∷ ws)
    → length ws + 1 < cap
    → tokenise (w ++ trail ws) cap ≡ w ∷ ws
unfolding tokenise
tokenise-trail w ws cap a room =
    rw (words-word w ws a.0, words-trail ws a.1) (take-all (cap - 1) (w ∷ ws) (omega arith))
