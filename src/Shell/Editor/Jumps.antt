-- ===== src/Shell/Editor/Jumps.antt =====
-- The word keys.
use corestack_peky.Common.{
  ℕ, zero, suc, ◌+◌, ◌-◌, ◌<◌, ◌≤◌, ◌≡◌, ◌⊎◌, inl, inr, refl, arith, Bool, true, false, not,
  Bool-cases,
}
use corestack_peky.Shell.Editor.{Line, skip_right, skip_left, jump_right, jump_left}
use corestack_peky.Text.{is_alnum}
use corestack_peky.Shell.Editor.Buffer.{text}

skip_right_lem :
    (test : ℕ → Bool) (buf : ℕ → ℕ) (n pos : ℕ)
    → let r = skip_right test buf n pos in
      (pos ≤ r) × (r ≤ pos + n) × ((r ≡ pos + n) ⊎ (test (buf r) ≡ false))
unfolding skip_right
skip_right_lem test buf zero pos = (omega arith, omega arith, inl (omega arith))
skip_right_lem test buf (suc n) pos = elim (Bool-cases (test (buf pos))) [
  | inl t ↦
      let rest = skip_right_lem test buf n (pos + 1) in
      let all : pos + 1 + n ≡ pos + suc n = omega arith in
      rw (skip_right, t) (omega (arith, rest.0), omega (arith, rest.1), rw all at rest.2)
  | inr f ↦ rw (skip_right, f) (omega arith, omega arith, inr f)
]

skip_left_lem :
    (test : ℕ → Bool) (buf : ℕ → ℕ) (pos : ℕ)
    → let r = skip_left test buf pos in
      (r ≤ pos) × ((r ≡ 0) ⊎ (0 < r) × (test (buf (r - 1)) ≡ false))
unfolding skip_left
skip_left_lem test buf zero = (omega arith, inl refl)
skip_left_lem test buf (suc pos) = elim (Bool-cases (test (buf pos))) [
  | inl t ↦
      let rest = skip_left_lem test buf pos in rw (skip_left, t) (omega (arith, rest.0), rest.1)
  | inr f ↦
      let here : suc pos - 1 ≡ pos = omega arith in
      rw (skip_left, f) (omega arith, inr (omega arith, rw here f))
]

-- The two word keys leave the text alone. To the right, the cursor never moves back or past the
-- end, and stops before a letter or digit, or at the end; to the left, it never moves on, and stops
-- behind a letter or digit, or at the start.
pub jump_right-jump_left :
    (l : Line)
    → l.pos ≤ l.len
    → (text (jump_right l) ≡ text l)
      × (l.pos ≤ (jump_right l).pos)
      × ((jump_right l).pos ≤ l.len)
      × (((jump_right l).pos ≡ l.len) ⊎ (is_alnum (l.buf (jump_right l).pos) ≡ true))
      × (text (jump_left l) ≡ text l)
      × ((jump_left l).pos ≤ l.pos)
      × (((jump_left l).pos ≡ 0) ⊎ (is_alnum (l.buf ((jump_left l).pos - 1)) ≡ true))
unfolding jump_right jump_left
jump_right-jump_left l inside =
    let other : ℕ → Bool = λ c. not (is_alnum c) in
    let word_end = skip_right is_alnum l.buf (l.len - l.pos) l.pos in
    let first = skip_right_lem is_alnum l.buf (l.len - l.pos) l.pos in
    let ahead = skip_right_lem other l.buf (l.len - word_end) word_end in
    let word_start = skip_left is_alnum l.buf (l.pos - 1) in
    let back = skip_left_lem is_alnum l.buf (l.pos - 1) in
    let behind = skip_left_lem other l.buf word_start in
    (
      refl,
      omega (arith, first, ahead.0),
      omega (arith, first, ahead.1),
      ground (arith, first.1, ahead.2),
      refl,
      omega (arith, back.0, behind.0),
      ground (arith, behind.1),
    )
