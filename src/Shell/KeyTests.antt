-- ===== src/Shell/KeyTests.antt =====
-- Runs of the editing keys and of the environment commands.
use corestack_peky.Common.{ℕ, ◌≡◌, refl, arith, List, [], ◌∷◌, none, true, ◌==◌, if◌then◌else◌}
use corestack_peky.Shell.Editor.{Line, typed, rubout, press, insert_char, jump_right, skip_right}
use corestack_peky.Shell.Editor.Keys.{Fits, edited, press-text}
use corestack_peky.Shell.Editor.Buffer.{text}
use corestack_peky.Shell.Environment.{Env, bad_name, bad_characters, strip_quotes}
use corestack_peky.Shell.Environment.Variables.{GoodNames}

-- "ab c" with the cursor at the `b`
abbrev abc : Line
abc = record {
  buf = λ i. if i == 0 then 97 else if i == 1 then 98 else if i == 2 then 32 else 99;
  len = 4;
  pos = 1;
}

abc-Fits : Fits 10 abc
abc-Fits = (omega arith, omega arith)

typed_x : text (press 10 (typed 120) abc) ≡ 97 ∷ 120 ∷ 98 ∷ 32 ∷ 99 ∷ []
unfolding press insert_char
typed_x = refl

word_jump : (jump_right abc).pos ≡ 3
unfolding jump_right skip_right
word_jump = refl

press-text_example : text (press 10 rubout abc) ≡ edited 10 rubout (text abc) 1
press-text_example = press-text 10 rubout abc abc-Fits tt

-- "A", "B_", "-" and the value "v" in double quotes
abbrev a_name : List ℕ
a_name = 65 ∷ []

abbrev b_name : List ℕ
b_name = 66 ∷ 95 ∷ []

abbrev quoted_v : List ℕ
quoted_v = 34 ∷ 118 ∷ 34 ∷ []

abbrev nothing_set : Env
nothing_set = λ m. none

quotes_gone : strip_quotes quoted_v ≡ 118 ∷ []
unfolding strip_quotes
quotes_gone = refl

dash_refused : bad_name (45 ∷ []) ≡ true
unfolding bad_name bad_characters
dash_refused = refl

two-GoodNames : GoodNames ((a_name, quoted_v) ∷ (b_name, []) ∷ [])
unfolding bad_name bad_characters
two-GoodNames = (refl, (refl, tt))
