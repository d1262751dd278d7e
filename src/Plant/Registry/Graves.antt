-- ===== src/Plant/Registry/Graves.antt =====
-- The numbering of the graveyard.
use corestack_peky.Common.{
  ℕ, suc, ◌+◌, ◌≤◌, ◌<◌, ◌≡◌, refl, ap, ◌∙◌, arith, List, [], ◌∷◌, ◌++◌, append_assoc, length,
  length-append, Option, Bool-cases, inl, inr, true, ◌==◌, ◌||◌,
}
use corestack_peky.Plant.Files.{DaemonInfo, print_int, print_nat}
use corestack_peky.Plant.Files.Numbers.{Passes, Passes-append, print_nat-Passes}
use corestack_peky.Plant.Files.Scan.{IsEntry, solid, inline}
use corestack_peky.Plant.Registry.{
  lines_of, append_to, buried_as, count_buried, modified_name, add_to_graveyard,
}
use corestack_peky.Plant.Registry.Register.{
  FileEnds, lines_of-append, entry_line, print_entry-line, line-inline, solid-inline, digits-inline,
}

buried_as-name : (name s : List ℕ) (c : ℕ) → buried_as name (name ++ (c ∷ s)) ≡ (c == 32 || c == 46)
buried_as-name [] s c = refl
buried_as-name (d ∷ name) s c = ground (arith, buried_as-name name s c)

count_buried-append :
    (name : List ℕ) (xs ys : List (List ℕ))
    → count_buried name (xs ++ ys) ≡ count_buried name xs + count_buried name ys
count_buried-append name [] ys = omega arith
count_buried-append name (x ∷ xs) ys = ground (arith, count_buried-append name xs ys)

-- The line of a grave counts for its plant's name.
buried_as-grave :
    (name s : List ℕ) (count : ℕ)
    → buried_as name ((modified_name name count ++ (32 ∷ s)) ++ (10 ∷ [])) ≡ true
buried_as-grave name s count = elim (Bool-cases (count == 0)) [
  | inl none_yet ↦
      rw (none_yet, append_assoc name (32 ∷ s) (10 ∷ [])) (buried_as-name name (s ++ (10 ∷ [])) 32)
  | inr some_are ↦
      rw
        (
          some_are,
          append_assoc name (46 ∷ print_nat count) (32 ∷ s),
          append_assoc name (46 ∷ (print_nat count ++ (32 ∷ s))) (10 ∷ []),
        )
        (buried_as-name name _ 46)
]

modified_name-inline :
    (name : List ℕ) (count : ℕ) → Passes solid name → Passes inline (modified_name name count)
modified_name-inline name count p = elim (Bool-cases (count == 0)) [
  | inl none_yet ↦ rw none_yet (solid-inline name p)
  | inr some_are ↦ rw some_are (
      Passes-append inline name (46 ∷ print_nat count) (solid-inline name p)
        (refl, digits-inline (print_nat count) (print_nat-Passes count)))
]

length-modified_name :
    (name : List ℕ) (count : ℕ)
    → length (modified_name name count) ≤ length name + 1 + length (print_nat count)
length-modified_name name count = elim (Bool-cases (count == 0)) [
  | inl none_yet ↦ rw none_yet (omega arith)
  | inr some_are ↦ rw some_are (omega (arith, length-append name (46 ∷ print_nat count)))
]

-- Burying a plant, in a graveyard of whole lines that can be opened, makes the lines that count for
-- its name one more, so that the next plant of that name gets the next number.
pub add_to_graveyard_lem :
    (ts : List ℕ) (rip : DaemonInfo) (file : Option (List ℕ))
    → IsEntry (record rip { timestamp = ts })
    → length (print_int rip.pid) ≤ 11
    → length (print_nat (count_buried rip.name (lines_of 1023 file))) ≤ 10
    → FileEnds file
    → count_buried rip.name (lines_of 1023 (add_to_graveyard true ts rip file))
      ≡ suc (count_buried rip.name (lines_of 1023 file))
unfolding add_to_graveyard
add_to_graveyard_lem ts rip file h short few ends =
    let count = count_buried rip.name (lines_of 1023 file) in
    let grave : DaemonInfo = record rip { name = modified_name rip.name count; timestamp = ts } in
    let rest = print_int rip.pid ++ (32 ∷ ts) in
    let line = entry_line grave ++ (10 ∷ []) in
    let counts = buried_as-grave rip.name rest count in
    let one : count_buried rip.name (line ∷ []) ≡ 1 = rw counts refl in
    let size = length-append (modified_name rip.name count) (32 ∷ rest) in
    let size' = length-append (print_int rip.pid) (32 ∷ ts) in
    let fits : length (entry_line grave) < 1023 =
      omega (arith, size, size', length-modified_name rip.name count, h.name_most, h.time_most) in
    let clean : Passes inline (entry_line grave) =
      line-inline grave (modified_name-inline rip.name count h.name_solid) h.time_inline in
    ap (λ x. count_buried rip.name (lines_of 1023 (append_to true x file))) (print_entry-line grave)
    ∙ (ap (count_buried rip.name) (lines_of-append 1023 (entry_line grave) file fits clean ends)
        ∙ (count_buried-append rip.name (lines_of 1023 file) (line ∷ []) ∙ omega (arith, one)))
