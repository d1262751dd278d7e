-- ===== src/Plant/Files/Numbers.antt =====
-- Numbers that were printed are read back.
use corestack_peky.Common.{
  ℕ, zero, suc, ◌+◌, ◌-◌, ◌*◌, ◌/◌, ◌%◌, ◌≤◌, ◌<◌, ◌≡◌, refl, sym, ap, ◌∙◌, arith, List, [], ◌∷◌,
  ◌++◌, length, length-append, some, Bool, true, false, ltb, ◌==◌, Bool-cases, inl, inr,
}
use corestack_peky.Common.Int.{ℤ, pos, negsuc}
use corestack_peky.Plant.Files.{
  span, some_chars, is_digit, is_space, skip_space, digits_value, digits, print_nat, print_int,
  scan_digits, scan_sign, scan_int, negative,
}

-- Every character passes the test.
abbrev pub Passes : (ℕ → Bool) → List ℕ → Type 0
Passes test [] = Unit {0}
Passes test (c ∷ s) = (test c ≡ true) × Passes test s

pub Passes-append :
    (test : ℕ → Bool) (s t : List ℕ) → Passes test s → Passes test t → Passes test (s ++ t)
Passes-append test [] t p q = q
Passes-append test (c ∷ s) t (h, p) q = (h, Passes-append test s t p q)

-- A part that passes, up to a character that does not.
pub span-stop :
    (test : ℕ → Bool) (most : ℕ) (w : List ℕ) (c : ℕ) (s : List ℕ)
    → Passes test w
    → test c ≡ false
    → length w ≤ most
    → span test most (w ++ (c ∷ s)) ≡ (w, c ∷ s)
span-stop test zero [] c s p h le = refl
span-stop test zero (d ∷ w) c s p h le = absurd (omega arith)
span-stop test (suc most) [] c s p h le = rw h refl
span-stop test (suc most) (d ∷ w) c s (p, ps) h le =
    rw (p, span-stop test most w c s ps h (omega arith)) refl

digits_value-append :
    (acc d : ℕ) (s : List ℕ) → digits_value acc (s ++ ((48 + d) ∷ [])) ≡ digits_value acc s * 10 + d
digits_value-append acc d [] = omega arith
digits_value-append acc d (c ∷ s) = digits_value-append (acc * 10 + (c - 48)) d s

digits-one : (fuel n : ℕ) → ltb n 10 ≡ true → digits (suc fuel) n ≡ (48 + n) ∷ []
digits-one fuel n t = rw (digits, t) refl

digits-more :
    (fuel n : ℕ)
    → ltb n 10 ≡ false
    → digits (suc fuel) n ≡ digits fuel (n / 10) ++ ((48 + n % 10) ∷ [])
digits-more fuel n f = rw (digits, f) refl

digits_value-digits : (fuel n : ℕ) → n < fuel → digits_value 0 (digits fuel n) ≡ n
digits_value-digits zero n h = absurd (omega arith)
digits_value-digits (suc fuel) n h = elim (Bool-cases (ltb n 10)) [
  | inl t ↦ rw (digits-one fuel n t) (omega arith)
  | inr f ↦
      let front = digits_value-digits fuel (n / 10) (ground (arith, f)) in
      rw (digits-more fuel n f, digits_value-append 0 (n % 10) (digits fuel (n / 10)), front)
        (omega arith)
]

digits-Passes : (fuel n : ℕ) → Passes is_digit (digits fuel n)
digits-Passes zero n = tt
digits-Passes (suc fuel) n = elim (Bool-cases (ltb n 10)) [
  | inl t ↦ rw (digits-one fuel n t) (ground (arith, t), tt)
  | inr f ↦ rw (digits-more fuel n f) (
      Passes-append is_digit (digits fuel (n / 10)) ((48 + n % 10) ∷ [])
        (digits-Passes fuel (n / 10)) (ground arith, tt))
]

pub print_nat-Passes : (n : ℕ) → Passes is_digit (print_nat n)
unfolding print_nat
print_nat-Passes n = digits-Passes (suc n) n

digits-some :
    (fuel n : ℕ) → n < fuel → (c : ℕ) × (s : List ℕ) × (digits fuel n ≡ c ∷ s) × (is_digit c ≡ true)
digits-some zero n h = absurd (omega arith)
digits-some (suc fuel) n h = elim (Bool-cases (ltb n 10)) [
  | inl t ↦ (48 + n, [], digits-one fuel n t, ground (arith, t))
  | inr f ↦
      let (c, s, e, d) = digits-some fuel (n / 10) (ground (arith, f)) in
      (c, s ++ ((48 + n % 10) ∷ []), rw (digits-more fuel n f, e) refl, d)
]

scan_digits-print_nat :
    (sign : ℕ → ℤ) (n : ℕ) (s : List ℕ)
    → scan_digits sign (print_nat n ++ (32 ∷ s)) ≡ some (sign n, 32 ∷ s)
unfolding print_nat
scan_digits-print_nat sign n s =
    let w = digits (suc n) n in
    let (c, t, e, d) = digits-some (suc n) n (omega arith) in
    let parts =
      span-stop is_digit (length (w ++ (32 ∷ s))) w 32 s (digits-Passes (suc n) n) refl
        (omega (arith, length-append w (32 ∷ s))) in
    let value = digits_value-digits (suc n) n (omega arith) in
    let some_of : some_chars (w, 32 ∷ s) ≡ some (w, 32 ∷ s) = rw e refl in
    rw (scan_digits, parts, some_of, value) refl

scan_sign-digit :
    (c : ℕ) (s : List ℕ)
    → is_digit c ≡ true
    → scan_sign (skip_space (c ∷ s)) ≡ scan_digits pos (c ∷ s)
scan_sign-digit c s d =
    let solid : is_space c ≡ false = ground arith in
    let plain : (c == 45) ≡ false = ground arith in
    let plain' : (c == 43) ≡ false = ground arith in
    rw (scan_sign, skip_space, solid, plain, plain') refl

scan_sign-print_nat :
    (n : ℕ) (s : List ℕ) → scan_sign (skip_space (print_nat n ++ (32 ∷ s))) ≡ some (pos n, 32 ∷ s)
unfolding print_nat
scan_sign-print_nat n s =
    let (c, t, e, d) = digits-some (suc n) n (omega arith) in
    let whole : digits (suc n) n ++ (32 ∷ s) ≡ c ∷ (t ++ (32 ∷ s)) = ap (λ w. w ++ (32 ∷ s)) e in
    ap (λ w. scan_sign (skip_space w)) whole
    ∙ (scan_sign-digit c (t ++ (32 ∷ s)) d
        ∙ (ap (scan_digits pos) (sym whole) ∙ scan_digits-print_nat pos n s))

-- A printed number, behind a blank and before one, is read back.
pub scan_int-print_int :
    (n : ℤ) (s : List ℕ) → scan_int (32 ∷ (print_int n ++ (32 ∷ s))) ≡ some (n, 32 ∷ s)
scan_int-print_int (pos n) s = scan_sign-print_nat n s
scan_int-print_int (negsuc n) s = scan_digits-print_nat negative (suc n) s
