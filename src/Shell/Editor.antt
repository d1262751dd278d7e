-- ===== src/Shell/Editor.antt =====
-- The editing keys of `line_read` (src/tetrish/cmdline.c), on the line buffer. The keys are those
-- that the loop has read; tab completion and the end of the line are not among them.
pub mod Buffer
pub mod Jumps
pub mod Keys
use corestack_peky.Common.{
  ℕ, zero, suc, ◌+◌, ◌-◌, List, [], ◌∷◌, Bool, true, false, ltb, leb, ◌==◌, ◌&&◌, ◌||◌, not,
  if◌then◌else◌, update, length, min,
}
use corestack_peky.Text.{is_alnum, char_at}

-- `buf`, `len` and `pos`.
pub record Line : Type 0 where
  pub buf : ℕ → ℕ
  pub len : ℕ
  pub pos : ℕ

-- memmove(&buf[dst], &buf[src], n)
abbrev pub memmove : (ℕ → ℕ) → ℕ → ℕ → ℕ → ℕ → ℕ
memmove buf dst src n j = if leb dst j && ltb j (dst + n) then buf (src + (j - dst)) else buf j

-- A printable character; `max` is `cap - 1`.
unfoldable pub insert_char : ℕ → ℕ → Line → Line
insert_char max c l =
    if ltb l.len max
    then record {
      buf = update (update (memmove l.buf (l.pos + 1) l.pos (l.len - l.pos)) l.pos c) (l.len + 1) 0;
      len = l.len + 1;
      pos = l.pos + 1;
    }
    else l

unfoldable pub backspace : Line → Line
backspace l =
    if ltb 0 l.pos
    then record {
      buf = memmove l.buf (l.pos - 1) l.pos (l.len - l.pos);
      len = l.len - 1;
      pos = l.pos - 1;
    }
    else l

unfoldable pub delete_key : Line → Line
delete_key l =
    if ltb l.pos l.len
    then record l {
      buf = update (memmove l.buf l.pos (l.pos + 1) (l.len - l.pos - 1)) (l.len - 1) 0;
      len = l.len - 1;
    }
    else l

unfoldable pub arrow_right : Line → Line
arrow_right l = if ltb l.pos l.len then record l { pos = l.pos + 1 } else l

unfoldable pub arrow_left : Line → Line
arrow_left l = if ltb 0 l.pos then record l { pos = l.pos - 1 } else l

-- `while (pos < len && test(buf[pos])) ++pos`, with `n` characters left.
unfoldable pub skip_right : (ℕ → Bool) → (ℕ → ℕ) → ℕ → ℕ → ℕ
skip_right test buf zero pos = pos
skip_right test buf (suc n) pos =
    let rest = skip_right test buf n (pos + 1) in if test (buf pos) then rest else pos

-- `while (pos > 0 && test(buf[pos - 1])) --pos`
unfoldable pub skip_left : (ℕ → Bool) → (ℕ → ℕ) → ℕ → ℕ
skip_left test buf zero = 0
skip_left test buf (suc pos) =
    let rest = skip_left test buf pos in if test (buf pos) then rest else suc pos

unfoldable pub jump_right : Line → Line
jump_right l =
    let word_end = skip_right is_alnum l.buf (l.len - l.pos) l.pos in
    record l { pos = skip_right (λ c. not (is_alnum c)) l.buf (l.len - word_end) word_end }

unfoldable pub jump_left : Line → Line
jump_left l =
    let word_start = skip_left is_alnum l.buf (l.pos - 1) in
    record l { pos = skip_left (λ c. not (is_alnum c)) l.buf word_start }

-- snprintf(buf, cap, "%s", h), where `max` is `cap - 1`; it answers the length of `h`.
unfoldable pub recall : ℕ → List ℕ → Line → Line
recall max h l =
    let n = min (length h) max in
    record {
      buf = λ j. if ltb j n then char_at h j else if j == n then 0 else l.buf j;
      len = length h;
      pos = length h;
    }

-- `recalled h` is the key up or down, when it answers a line `h` of the history.
pub data Key : Type 0 where
  typed : ℕ → Key
  rubout : Key
  delete : Key
  right : Key
  left : Key
  word_right : Key
  word_left : Key
  recalled : List ℕ → Key

-- One round of the loop for a key.
unfoldable pub press : ℕ → Key → Line → Line
press max (typed c) l = insert_char max c l
press max rubout l = backspace l
press max delete l = delete_key l
press max right l = arrow_right l
press max left l = arrow_left l
press max word_right l = jump_right l
press max word_left l = jump_left l
press max (recalled h) l = recall max h l
