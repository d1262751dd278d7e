-- ===== src/Shell/Editor/Keys.antt =====
-- What the keys do to the text and to the cursor.
use corestack_peky.Common.{
  ℕ, suc, ◌+◌, ◌-◌, ◌<◌, ◌≤◌, ◌≡◌, inl, inr, refl, ap, sym, ◌∙◌, arith, List, [], ◌∷◌, ◌++◌, true,
  false, ltb, if◌then◌else◌, update, length, length-slice, slice, take, drop, Bool-cases,
}
use corestack_peky.Text.{char_at}
use corestack_peky.Shell.Editor.{
  Line, memmove, insert_char, backspace, delete_key, arrow_right, arrow_left, jump_right, jump_left,
  Key, typed, rubout, delete, right, left, word_right, word_left, recalled, recall, press,
}
use corestack_peky.Shell.Editor.Jumps.{jump_right-jump_left}
use corestack_peky.Shell.Editor.Buffer.{text, text-parts, inserted, closed_up}

-- The cursor is in the text, and the text fits.
abbrev pub Fits : ℕ → Line → Type 0
Fits max l = (l.pos ≤ l.len) × (l.len ≤ max)

insert_char-text :
    (max c : ℕ) (l : Line)
    → Fits max l
    → l.len < max
    → let l' = insert_char max c l in
      (text l' ≡ take l.pos (text l) ++ (c ∷ drop l.pos (text l))) × (l'.pos ≡ l.pos + 1)
unfolding insert_char
insert_char-text max c l fits room =
    let test : ltb l.len max ≡ true = ground arith in
    let n = l.len - l.pos in
    let parts = text-parts l.buf l.pos l.len fits.0 in
    let ends : l.pos + n + 1 ≡ l.len + 1 = omega arith in
    let count : l.pos + suc n ≡ l.len + 1 = omega arith in
    let done = inserted l.buf l.pos n c in
    rw (test, parts.0, parts.1) (rw (ends, count) at done, refl)

backspace-text :
    (max : ℕ) (l : Line)
    → Fits max l
    → 0 < l.pos
    → (text (backspace l) ≡ take (l.pos - 1) (text l) ++ drop l.pos (text l))
      × ((backspace l).pos ≡ l.pos - 1)
unfolding backspace
backspace-text max l fits inside =
    let test : ltb 0 l.pos ≡ true = ground arith in
    let n = l.len - l.pos in
    let b : ℕ → ℕ = memmove l.buf (l.pos - 1) l.pos n in
    let front = (text-parts l.buf (l.pos - 1) l.len (omega arith)).0 in
    let back = (text-parts l.buf l.pos l.len fits.0).1 in
    let count : l.pos - 1 + n ≡ l.len - 1 = omega arith in
    let done =
      closed_up b l.buf (l.pos - 1) l.pos n (λ i lt. ground arith)
        (λ i lt.
          let from : l.pos + (l.pos - 1 + i - (l.pos - 1)) ≡ l.pos + i = omega arith in
          ground (arith, ap l.buf from)) in
    rw (test, front, back) (ap (slice b 0) (sym count) ∙ done, refl)

delete_key-text :
    (max : ℕ) (l : Line)
    → Fits max l
    → l.pos < l.len
    → (text (delete_key l) ≡ take l.pos (text l) ++ drop (l.pos + 1) (text l))
      × ((delete_key l).pos ≡ l.pos)
unfolding delete_key
delete_key-text max l fits inside =
    let test : ltb l.pos l.len ≡ true = ground arith in
    let n = l.len - (l.pos + 1) in
    let b : ℕ → ℕ = update (memmove l.buf l.pos (l.pos + 1) (l.len - l.pos - 1)) (l.len - 1) 0 in
    let front = (text-parts l.buf l.pos l.len fits.0).0 in
    let back = (text-parts l.buf (l.pos + 1) l.len (omega arith)).1 in
    let count : l.pos + n ≡ l.len - 1 = omega arith in
    let done =
      closed_up b l.buf l.pos (l.pos + 1) n (λ i lt. ground arith)
        (λ i lt.
          let from : l.pos + 1 + (l.pos + i - l.pos) ≡ l.pos + 1 + i = omega arith in
          ground (arith, ap l.buf from)) in
    rw (test, front, back) (ap (slice b 0) (sym count) ∙ done, refl)

-- The text that a key makes of a text with the cursor at `p`.
abbrev pub edited : ℕ → Key → List ℕ → ℕ → List ℕ
edited max (typed c) t p = if ltb (length t) max then take p t ++ (c ∷ drop p t) else t
edited max rubout t p = if ltb 0 p then take (p - 1) t ++ drop p t else t
edited max delete t p = if ltb p (length t) then take p t ++ drop (p + 1) t else t
edited max (recalled h) t p = h
edited max _ t p = t

-- A line that is recalled has room in the buffer, as it had when it was entered.
abbrev pub Short : ℕ → Key → Type 0
Short max (recalled h) = length h ≤ max
Short max _ = Unit

insert_char-full : (max c : ℕ) (l : Line) → ltb l.len max ≡ false → insert_char max c l ≡ l
unfolding insert_char
insert_char-full max c l full = rw full

backspace-start : (l : Line) → ltb 0 l.pos ≡ false → backspace l ≡ l
unfolding backspace
backspace-start l start = rw start

delete_key-end : (l : Line) → ltb l.pos l.len ≡ false → delete_key l ≡ l
unfolding delete_key
delete_key-end l end = rw end

arrow_right-text : (l : Line) → text (arrow_right l) ≡ text l
unfolding arrow_right
arrow_right-text l = elim (Bool-cases (ltb l.pos l.len)) [ inl t ↦ rw t refl | inr f ↦ rw f refl ]

arrow_left-text : (l : Line) → text (arrow_left l) ≡ text l
unfolding arrow_left
arrow_left-text l = elim (Bool-cases (ltb 0 l.pos)) [ inl t ↦ rw t refl | inr f ↦ rw f refl ]

slice-char_at :
    (h : List ℕ) (f : ℕ → ℕ) (s : ℕ)
    → ((i : ℕ) → i < length h → f (s + i) ≡ char_at h i)
    → slice f s (length h) ≡ h
slice-char_at [] f s same = refl
slice-char_at (c ∷ h) f s same =
    let first : f s ≡ c = grind (arith, same 0) in
    let rest = slice-char_at h f (s + 1) (λ i lt. grind (arith, same (suc i) (omega arith))) in
    rw (first, rest)

recall-text : (max : ℕ) (h : List ℕ) (l : Line) → length h ≤ max → text (recall max h l) ≡ h
unfolding recall
recall-text max h l short =
    slice-char_at h (recall max h l).buf 0
      (λ i lt. let from : 0 + i ≡ i = omega arith in rw from (ground arith))

-- Each key makes of the text what it means: a character goes in at the cursor as long as there is
-- room, backspace takes out the one before it, delete the one behind it, a line that is recalled and has
-- room replaces it, and the other keys leave it.
pub press-text :
    (max : ℕ) (k : Key) (l : Line)
    → Fits max l
    → Short max k
    → text (press max k l) ≡ edited max k (text l) l.pos
unfolding press
press-text max (typed c) l fits short =
    let size = length-slice l.buf 0 l.len in
    elim (Bool-cases (ltb l.len max)) [
      | inl room ↦ rw (size, room) (insert_char-text max c l fits (ground arith)).0
      | inr full ↦ rw (size, full) (ap text (insert_char-full max c l full))
    ]
press-text max rubout l fits short = elim (Bool-cases (ltb 0 l.pos)) [
  | inl inside ↦ rw inside (backspace-text max l fits (ground arith)).0
  | inr start ↦ rw start (ap text (backspace-start l start))
]
press-text max delete l fits short =
    let size = length-slice l.buf 0 l.len in
    elim (Bool-cases (ltb l.pos l.len)) [
      | inl inside ↦ rw (size, inside) (delete_key-text max l fits (ground arith)).0
      | inr end ↦ rw (size, end) (ap text (delete_key-end l end))
    ]
press-text max right l fits short = arrow_right-text l
press-text max left l fits short = arrow_left-text l
press-text max word_right l fits short = (jump_right-jump_left l fits.0).0
press-text max word_left l fits short = (jump_right-jump_left l fits.0).4
press-text max (recalled h) l fits short = recall-text max h l short

-- Whatever key is pressed, the cursor stays in the text and the text in the buffer, as long as a
-- line that is recalled has room there.
pub press-Fits :
    (max : ℕ) (k : Key) (l : Line) → Fits max l → Short max k → Fits max (press max k l)
unfolding press insert_char backspace delete_key arrow_right arrow_left jump_right jump_left recall
press-Fits max (typed c) l fits short = ground arith
press-Fits max rubout l fits short = ground arith
press-Fits max delete l fits short = ground arith
press-Fits max right l fits short = ground arith
press-Fits max left l fits short = ground arith
press-Fits max word_right l fits short = ((jump_right-jump_left l fits.0).2, fits.1)
press-Fits max word_left l fits short = (omega (arith, (jump_right-jump_left l fits.0).5), fits.1)
press-Fits max (recalled h) l fits short = (omega arith, short)
