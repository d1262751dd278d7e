-- ===== src/Common/Arrays.antt =====
-- C arrays: a function of the index, and lists measured by native numbers.
use Prim.Native.Nat.{ℕ, zero, suc, ◌+◌, ◌-◌, ◌≤◌, min}
use mathlib.Core.Path.{◌≡◌, refl, ap}
use mathlib.Core.List.{List, [], ◌∷◌, ◌++◌}
use native.Mathlib.Omega.{arith}
use corestack_peky.Common.Tests.{◌==◌, if◌then◌else◌}

module _ {ℓ} {A : Type ℓ} where
  -- `a[i] = v`
  abbrev pub update : (ℕ → A) → ℕ → A → ℕ → A
  update a i v j = if i == j then v else a j

  abbrev pub length : List A → ℕ
  length [] = 0
  length (x ∷ xs) = suc (length xs)

  -- `a[from], a[from + 1], …`, `n` of them
  abbrev pub slice : (ℕ → A) → ℕ → ℕ → List A
  slice a from zero = []
  slice a from (suc n) = a from ∷ slice a (from + 1) n

  pub length-append : (xs ys : List A) → length (xs ++ ys) ≡ length xs + length ys
  length-append [] ys = omega arith
  length-append (x ∷ xs) ys = omega (arith, length-append xs ys)

  pub length-slice : (a : ℕ → A) (from n : ℕ) → length (slice a from n) ≡ n
  length-slice a from zero = refl
  length-slice a from (suc n) = omega (arith, length-slice a (from + 1) n)

  abbrev pub take : ℕ → List A → List A
  take zero xs = []
  take (suc n) [] = []
  take (suc n) (x ∷ xs) = x ∷ take n xs

  abbrev pub drop : ℕ → List A → List A
  drop zero xs = xs
  drop (suc n) [] = []
  drop (suc n) (x ∷ xs) = drop n xs

  pub take-drop : (n : ℕ) (xs : List A) → take n xs ++ drop n xs ≡ xs
  take-drop zero xs = refl
  take-drop (suc n) [] = refl
  take-drop (suc n) (x ∷ xs) = ap (λ r. x ∷ r) (take-drop n xs)

  pub length-drop : (n : ℕ) (xs : List A) → length (drop n xs) ≡ length xs - n
  length-drop zero xs = omega arith
  length-drop (suc n) [] = omega arith
  length-drop (suc n) (x ∷ xs) = omega (arith, length-drop n xs)

  pub take-all : (n : ℕ) (xs : List A) → length xs ≤ n → take n xs ≡ xs
  take-all zero [] le = refl
  take-all zero (x ∷ xs) le = absurd (omega arith)
  take-all (suc n) [] le = refl
  take-all (suc n) (x ∷ xs) le = ap (λ r. x ∷ r) (take-all n xs (omega arith))

  -- Two splits of a list at the same place.
  pub append-inj :
      (us vs xs ys : List A) → us ++ xs ≡ vs ++ ys → length us ≡ length vs → (us ≡ vs) × (xs ≡ ys)
  append-inj [] [] xs ys e h = (refl, e)
  append-inj [] (v ∷ vs) xs ys e h = absurd (omega (arith, h))
  append-inj (u ∷ us) [] xs ys e h = absurd (omega (arith, h))
  append-inj (u ∷ us) (v ∷ vs) xs ys e h =
      let heads : u ≡ v = grind arith in
      let tails : us ++ xs ≡ vs ++ ys = grind arith in
      let rest = append-inj us vs xs ys tails (omega (arith, h)) in
      (grind (arith, heads, rest), rest.1)

  pub take-append : (xs ys : List A) → take (length xs) (xs ++ ys) ≡ xs
  take-append [] ys = refl
  take-append (x ∷ xs) ys = ap (λ r. x ∷ r) (take-append xs ys)

  pub drop-append : (xs ys : List A) → drop (length xs) (xs ++ ys) ≡ ys
  drop-append [] ys = refl
  drop-append (x ∷ xs) ys = drop-append xs ys

  pub length-take : (n : ℕ) (xs : List A) → length (take n xs) ≡ min n (length xs)
  length-take zero xs = omega arith
  length-take (suc n) [] = omega arith
  length-take (suc n) (x ∷ xs) = omega (arith, length-take n xs)
