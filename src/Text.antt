-- ===== src/Text.antt =====
-- C strings as lists of character codes: `strcmp`, `strchr` and the last character.
use corestack_peky.Common.{
  leb, ◌||◌, ap, ℕ, zero, suc, ◌≡◌, refl, arith, List, [], ◌∷◌, ◌++◌, Option, none, some, Bool,
  true, false, ◌&&◌, ◌==◌, if◌then◌else◌,
}

-- `strcmp(s, t) == 0`
abbrev pub str_eq : List ℕ → List ℕ → Bool
str_eq [] [] = true
str_eq [] (c ∷ t) = false
str_eq (c ∷ s) [] = false
str_eq (c ∷ s) (d ∷ t) = (c == d) && str_eq s t

pub str_eq_refl : (s : List ℕ) → str_eq s s ≡ true
str_eq_refl [] = refl
str_eq_refl (c ∷ s) = ground (arith, str_eq_refl s)

pub str_eq→eq : (s t : List ℕ) → str_eq s t ≡ true → s ≡ t
str_eq→eq [] [] h = refl
str_eq→eq [] (c ∷ t) h = absurd (ground arith)
str_eq→eq (c ∷ s) [] h = absurd (ground arith)
str_eq→eq (c ∷ s) (d ∷ t) h = grind (arith, str_eq→eq s t)

-- `strchr(s, c)`: the parts before and behind the first `c`.
abbrev pub split_at : ℕ → List ℕ → Option (List ℕ × List ℕ)
split_at c [] = none
split_at c (d ∷ s) =
    let rest = split_at c s in
    if d == c then some ([], s) else elim rest [ none ↦ none | some p ↦ some (d ∷ p.0, p.1) ]

-- `s[strlen(s) - 1] == c`, false for the empty string
abbrev pub ends_with : ℕ → List ℕ → Bool
ends_with c [] = false
ends_with c (d ∷ []) = d == c
ends_with c (d ∷ e ∷ s) = ends_with c (e ∷ s)

-- all but the last character
abbrev pub chop : List ℕ → List ℕ
chop [] = []
chop (d ∷ []) = []
chop (d ∷ e ∷ s) = d ∷ chop (e ∷ s)

pub ends_with-snoc : (c d : ℕ) (s : List ℕ) → ends_with c (s ++ (d ∷ [])) ≡ (d == c)
ends_with-snoc c d [] = refl
ends_with-snoc c d (e ∷ []) = refl
ends_with-snoc c d (e ∷ f ∷ s) = ends_with-snoc c d (f ∷ s)

pub chop-snoc : (d : ℕ) (s : List ℕ) → chop (s ++ (d ∷ [])) ≡ s
chop-snoc d [] = refl
chop-snoc d (e ∷ []) = refl
chop-snoc d (e ∷ f ∷ s) = ap (λ r. e ∷ r) (chop-snoc d (f ∷ s))

abbrev pub blank : ℕ
blank = 32

-- The words with a blank before each.
abbrev pub trail : List (List ℕ) → List ℕ
trail [] = []
trail (w ∷ ws) = blank ∷ (w ++ trail ws)

-- isalnum in the C locale
abbrev pub is_alnum : ℕ → Bool
is_alnum c = leb 48 c && leb c 57 || (leb 65 c && leb c 90 || leb 97 c && leb c 122)

-- `s[i]`, 0 past the end
abbrev pub char_at : List ℕ → ℕ → ℕ
char_at [] i = 0
char_at (c ∷ s) zero = c
char_at (c ∷ s) (suc i) = char_at s i

-- The bytes before the first 0.
abbrev pub c_string : List ℕ → List ℕ
c_string [] = []
c_string (zero ∷ bs) = []
c_string (suc c ∷ bs) = suc c ∷ c_string bs
