-- ===== src/Plant/Files.antt =====
-- The standard library's `fgets`, `sscanf` and `dprintf`, as far as the registry files use them.
pub mod Lines
pub mod Numbers
pub mod Scan
use corestack_peky.Common.{
  ℕ, zero, suc, ◌+◌, ◌-◌, ◌*◌, ◌/◌, ◌%◌, List, [], ◌∷◌, ◌++◌, Option, none, some, Bool, true, false,
  leb, ltb, ◌==◌, ◌&&◌, ◌||◌, length, if◌then◌else◌, ◌>>=◌,
}
use corestack_peky.Common.Int.{ℤ, pos, negsuc}

-- The lines that `fgets` answers with a buffer of `cap + 1` bytes: `room` of them are left, and
-- `line` was read.
abbrev pub fgets_lines : ℕ → ℕ → List ℕ → List ℕ → List (List ℕ)
fgets_lines cap room [] [] = []
fgets_lines cap room (c ∷ line) [] = (c ∷ line) ∷ []
fgets_lines cap room line (b ∷ bytes) =
    let full = b == 10 || room == 1 in
    let rest =
      fgets_lines cap (if full then cap else room - 1) (if full then [] else line ++ (b ∷ []))
        bytes in
    if full then (line ++ (b ∷ [])) ∷ rest else rest

-- isspace in the C locale
abbrev pub is_space : ℕ → Bool
is_space c = c == 32 || leb 9 c && leb c 13

abbrev pub skip_space : List ℕ → List ℕ
skip_space [] = []
skip_space (c ∷ s) = let rest = skip_space s in if is_space c then rest else c ∷ s

-- The longest part of at most so many characters that pass the test, and what is behind it.
abbrev pub span : (ℕ → Bool) → ℕ → List ℕ → List ℕ × List ℕ
span test zero s = ([], s)
span test (suc most) [] = ([], [])
span test (suc most) (c ∷ s) =
    let rest = span test most s in if test c then (c ∷ rest.0, rest.1) else ([], c ∷ s)

-- A conversion must take a character.
abbrev pub some_chars : List ℕ × List ℕ → Option (List ℕ × List ℕ)
some_chars ([], s) = none
some_chars (c ∷ word, s) = some (c ∷ word, s)

-- %63s
abbrev pub scan_word : ℕ → List ℕ → Option (List ℕ × List ℕ)
scan_word most s = some_chars (span (λ c. if is_space c then false else true) most (skip_space s))

abbrev pub is_digit : ℕ → Bool
is_digit c = leb 48 c && leb c 57

abbrev pub digits_value : ℕ → List ℕ → ℕ
digits_value acc [] = acc
digits_value acc (c ∷ s) = digits_value (acc * 10 + (c - 48)) s

-- The digits of %d, `length s` of them at most.
abbrev pub scan_digits : (ℕ → ℤ) → List ℕ → Option (ℤ × List ℕ)
scan_digits sign s = elim (some_chars (span is_digit (length s) s)) [
  | none ↦ none
  | some p ↦ some (sign (digits_value 0 p.0), p.1)
]

abbrev pub negative : ℕ → ℤ
negative zero = pos 0
negative (suc n) = negsuc n

abbrev pub scan_sign : List ℕ → Option (ℤ × List ℕ)
scan_sign [] = none
scan_sign (c ∷ s) =
    if c == 45
    then scan_digits negative s
    else if c == 43
    then scan_digits pos s
    else scan_digits pos (c ∷ s)

-- %d
abbrev pub scan_int : List ℕ → Option (ℤ × List ℕ)
scan_int s = scan_sign (skip_space s)

-- %127[^\n], behind a blank of the format
abbrev pub scan_rest : ℕ → List ℕ → Option (List ℕ × List ℕ)
scan_rest most s = some_chars (span (λ c. if c == 10 then false else true) most (skip_space s))

-- A line of the registry: name, pid, time.
pub record DaemonInfo : Type 0 where
  pub name : List ℕ
  pub pid : ℤ
  pub timestamp : List ℕ

-- `sscanf(line, "%63s %d %127[^\n]", name, &pid, ts)`; none: not all three were read.
unfoldable pub scan_entry : List ℕ → Option DaemonInfo
scan_entry line = do
  (name, s₁) ← scan_word 63 line
  (pid, s₂) ← scan_int s₁
  (ts, s₃) ← scan_rest 127 s₂
  some (record { name = name; pid = pid; timestamp = ts })

-- %d of a number
abbrev pub digits : ℕ → ℕ → List ℕ
digits zero n = []
digits (suc fuel) n = elim (ltb n 10) [
  | true ↦ (48 + n) ∷ []
  | false ↦ digits fuel (n / 10) ++ ((48 + n % 10) ∷ [])
]

unfoldable pub print_nat : ℕ → List ℕ
print_nat n = digits (suc n) n

abbrev pub print_int : ℤ → List ℕ
print_int (pos n) = print_nat n
print_int (negsuc n) = 45 ∷ print_nat (suc n)

-- `dprintf(fd, "%s %d %s\n", name, pid, ts)`
unfoldable pub print_entry : DaemonInfo → List ℕ
print_entry e = e.name ++ (32 ∷ (print_int e.pid ++ (32 ∷ (e.timestamp ++ (10 ∷ [])))))
