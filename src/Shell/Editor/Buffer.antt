-- ===== src/Shell/Editor/Buffer.antt =====
-- Slices of the line buffer, and what `memmove` does to them.
use corestack_peky.Common.{
  ℕ, zero, suc, ◌+◌, ◌-◌, ◌<◌, ◌≤◌, ◌≡◌, refl, ap, ◌∙◌, arith, List, ◌∷◌, ◌++◌, update, slice, take,
  drop,
}
use corestack_peky.Shell.Editor.{Line, memmove}

abbrev pub text : Line → List ℕ
text l = slice l.buf 0 l.len

pub slice-agree :
    (a b : ℕ → ℕ) (s t n : ℕ)
    → ((i : ℕ) → i < n → a (s + i) ≡ b (t + i))
    → slice a s n ≡ slice b t n
slice-agree a b s t zero h = refl
slice-agree a b s t (suc n) h =
    let first : a s ≡ b t = grind (arith, h 0) in
    let rest = slice-agree a b (s + 1) (t + 1) n (λ i lt. grind (arith, h (i + 1) (omega arith))) in
    rw (first, rest)

slice-append : (a : ℕ → ℕ) (s m n : ℕ) → slice a s (m + n) ≡ slice a s m ++ slice a (s + m) n
slice-append a s zero n =
    let none_before : 0 + n ≡ n = omega arith in
    let here : s + 0 ≡ s = omega arith in rw (none_before, here)
slice-append a s (suc m) n =
    let count : suc m + n ≡ suc (m + n) = omega arith in
    let here : s + suc m ≡ s + 1 + m = omega arith in
    rw (count, here) (ap (λ r. a s ∷ r) (slice-append a (s + 1) m n))

take-slice : (a : ℕ → ℕ) (s p n : ℕ) → take p (slice a s (p + n)) ≡ slice a s p
take-slice a s zero n = refl
take-slice a s (suc p) n =
    let count : suc p + n ≡ suc (p + n) = omega arith in
    rw count (ap (λ r. a s ∷ r) (take-slice a (s + 1) p n))

drop-slice : (a : ℕ → ℕ) (s p n : ℕ) → drop p (slice a s (p + n)) ≡ slice a (s + p) n
drop-slice a s zero n =
    let none_before : 0 + n ≡ n = omega arith in
    let here : s + 0 ≡ s = omega arith in rw (none_before, here)
drop-slice a s (suc p) n =
    let count : suc p + n ≡ suc (p + n) = omega arith in
    let here : s + suc p ≡ s + 1 + p = omega arith in rw (count, here) (drop-slice a (s + 1) p n)

-- The parts of the text before and behind a place in it.
pub text-parts :
    (a : ℕ → ℕ) (p len : ℕ)
    → p ≤ len
    → (take p (slice a 0 len) ≡ slice a 0 p) × (drop p (slice a 0 len) ≡ slice a p (len - p))
text-parts a p len le =
    let whole : len ≡ p + (len - p) = omega arith in
    let here : 0 + p ≡ p = omega arith in
    (
      ap (λ k. take p (slice a 0 k)) whole ∙ take-slice a 0 p (len - p),
      ap (λ k. drop p (slice a 0 k)) whole
          ∙ drop-slice a 0 p (len - p)
          ∙ ap (λ k. slice a k (len - p)) here,
    )

-- A text that agrees with another one before a place, and from there on with its rest.
text-join :
    (a b : ℕ → ℕ) (p q m n : ℕ)
    → ((i : ℕ) → i < p → a i ≡ b i)
    → ((i : ℕ) → i < n → a (m + i) ≡ b (q + i))
    → slice a 0 p ++ slice a m n ≡ slice b 0 p ++ slice b q n
text-join a b p q m n before behind =
    let front = slice-agree a b 0 0 p (λ i lt. grind (arith, before i lt)) in
    let back = slice-agree a b m q n behind in rw (front, back)

pub inserted :
    (buf : ℕ → ℕ) (p n c : ℕ)
    → slice (update (update (memmove buf (p + 1) p n) p c) (p + n + 1) 0) 0 (p + suc n)
      ≡ slice buf 0 p ++ (c ∷ slice buf p n)
inserted buf p n c =
    let b : ℕ → ℕ = update (update (memmove buf (p + 1) p n) p c) (p + n + 1) 0 in
    let parts : slice b 0 (p + suc n) ≡ slice b 0 p ++ (b (0 + p) ∷ slice b (0 + p + 1) n) =
      slice-append b 0 p (suc n) in
    let here : 0 + p ≡ p = omega arith in
    let front : slice b 0 p ≡ slice buf 0 p = slice-agree b buf 0 0 p (λ i lt. ground arith) in
    let new : b p ≡ c = ground arith in
    let back : slice b (p + 1) n ≡ slice buf p n = slice-agree b buf (p + 1) p n (λ i lt.
      let from : p + (p + 1 + i - (p + 1)) ≡ p + i = omega arith in ground (arith, ap buf from)) in
    let joined : slice b 0 p ++ (b p ∷ slice b (p + 1) n) ≡ slice buf 0 p ++ (c ∷ slice buf p n) =
      rw (front, new, back) in
    parts ∙ (ap (λ k. slice b 0 p ++ (b k ∷ slice b (k + 1) n)) here ∙ joined)

-- The characters behind `q` come to `p`, `n` of them.
pub closed_up :
    (b buf : ℕ → ℕ) (p q n : ℕ)
    → ((i : ℕ) → i < p → b i ≡ buf i)
    → ((i : ℕ) → i < n → b (p + i) ≡ buf (q + i))
    → slice b 0 (p + n) ≡ slice buf 0 p ++ slice buf q n
closed_up b buf p q n before behind =
    let here : 0 + p ≡ p = omega arith in
    slice-append b 0 p n
    ∙ (ap (λ k. slice b 0 p ++ slice b k n) here ∙ text-join b buf p q p n before behind)
