-- ===== src/Plant/Files/Lines.antt =====
-- Lines of a file that is appended to.
use corestack_peky.Common.{
  ℕ, ◌-◌, ◌<◌, ◌≡◌, refl, ap, ◌∙◌, arith, List, [], ◌∷◌, ◌++◌, append_assoc, length, false, ◌==◌,
  ◌||◌, Bool-cases, inl, inr,
}
use corestack_peky.Plant.Files.{fgets_lines}
use corestack_peky.Plant.Files.Numbers.{Passes}
use corestack_peky.Plant.Files.Scan.{inline}

-- The file so far is empty, or ends with the end of a line.
pub data EndsLine : List ℕ → Type 0 where
  empty : EndsLine []
  line_end : (s : List ℕ) → EndsLine (s ++ (10 ∷ []))

-- Behind an end of line, `fgets` starts with its whole buffer.
fgets_lines-newline :
    (cap room : ℕ) (line s t : List ℕ)
    → fgets_lines cap room line ((s ++ (10 ∷ [])) ++ t)
      ≡ fgets_lines cap room line (s ++ (10 ∷ [])) ++ fgets_lines cap cap [] t
fgets_lines-newline cap room line [] t = refl
fgets_lines-newline cap room line (b ∷ s) t = elim (Bool-cases (b == 10 || room == 1)) [
  | inl full ↦ rw full (ap (λ r. (line ++ (b ∷ [])) ∷ r) (fgets_lines-newline cap cap [] s t))
  | inr more ↦ rw more (fgets_lines-newline cap (room - 1) (line ++ (b ∷ [])) s t)
]

pub fgets_lines-append :
    (cap : ℕ) (s t : List ℕ)
    → EndsLine s
    → fgets_lines cap cap [] (s ++ t) ≡ fgets_lines cap cap [] s ++ fgets_lines cap cap [] t
fgets_lines-append cap s t empty = refl
fgets_lines-append cap s t (line_end u) = fgets_lines-newline cap cap [] u t

fgets_lines-rest :
    (cap room : ℕ) (line s : List ℕ)
    → length s < room
    → Passes inline s
    → fgets_lines cap room line (s ++ (10 ∷ [])) ≡ (line ++ (s ++ (10 ∷ []))) ∷ []
fgets_lines-rest cap room line [] h p = refl
fgets_lines-rest cap room line (b ∷ s) h (p, ps) =
    let more : (b == 10 || room == 1) ≡ false = ground arith in
    let rest = fgets_lines-rest cap (room - 1) (line ++ (b ∷ [])) s (omega arith) ps in
    rw more (rest ∙ ap (λ l. l ∷ []) (append_assoc line (b ∷ []) (s ++ (10 ∷ []))))

-- A line that fits the buffer is read whole.
pub fgets_lines-line :
    (cap : ℕ) (s : List ℕ)
    → length s < cap
    → Passes inline s
    → fgets_lines cap cap [] (s ++ (10 ∷ [])) ≡ (s ++ (10 ∷ [])) ∷ []
fgets_lines-line cap s h p = fgets_lines-rest cap cap [] s h p
