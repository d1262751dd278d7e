-- ===== src/Shell/History/Recall.antt =====
-- What the arrow keys recall from the ring of past lines.
use corestack_peky.Common.{
  ℕ, zero, suc, ◌+◌, ◌-◌, ◌%◌, ◌<◌, ◌≤◌, ◌≡◌, refl, arith, List, [], ◌∷◌, none, some, ◌==◌,
  if◌then◌else◌, length, sym, ◌∙◌,
}
use corestack_peky.Shell.History.{
  History, hist_cap, history, hist_up, hist_down, ups, recent, enter, nonempty, get,
}

-- The cursor is at the head, where a line is typed, and `count` lines were entered.
record IsReset (h : History) (count : ℕ) : Type 0 where
  head : h.hhead < hist_cap
  cursor : h.hcur ≡ h.hhead
  cap : h.hlen ≤ hist_cap
  part : h.hlen < hist_cap → (h.hlen ≡ count) × (h.hhead ≡ count)
  full : h.hlen ≡ hist_cap → hist_cap ≤ count

history-IsReset :
    (c : ℕ) (line : List ℕ) (h : History) (n : ℕ)
    → IsReset h n
    → IsReset (history (c ∷ line) h) (suc n)
unfolding history
history-IsReset c line h n w = record {
  head = ground arith;
  cursor = refl;
  cap = ground (arith, w.cap);
  part = λ lt. ground (arith, w.cap, w.part);
  full = λ e. ground (arith, w.cap, w.part, w.full);
}

enter-IsReset : (lines : List (List ℕ)) → IsReset (enter lines) (length (nonempty lines))
unfolding history
enter-IsReset [] = record {
  head = ground arith;
  cursor = refl;
  cap = ground arith;
  part = λ lt. (refl, refl);
  full = λ e. ground arith;
}
enter-IsReset ([] ∷ lines) = enter-IsReset lines
enter-IsReset ((c ∷ line) ∷ lines) =
    history-IsReset c line (enter lines) (length (nonempty lines)) (enter-IsReset lines)

recent-enter :
    (lines : List (List ℕ)) (k : ℕ) → k < hist_cap → recent (enter lines) k ≡ get (nonempty lines) k
unfolding history
recent-enter [] k lt = refl
recent-enter ([] ∷ lines) k lt = recent-enter lines k lt
recent-enter ((c ∷ line) ∷ lines) zero lt = let w = enter-IsReset lines in ground (arith, w.head)
recent-enter ((c ∷ line) ∷ lines) (suc k) lt =
    let w = enter-IsReset lines in
    let rest = recent-enter lines k (omega arith) in
    let shift : (((enter lines).hhead + 1) % hist_cap + 127 - suc k) % hist_cap
        ≡ ((enter lines).hhead + 127 - k) % hist_cap =
      omega (arith, w.head) in
    let other : ¬ (((enter lines).hhead + 127 - k) % hist_cap ≡ (enter lines).hhead) =
      λ e. omega (arith, w.head, e) in
    rw shift (ground arith)

hist_up_lem :
    (h : History)
    → 0 < h.hlen
    → ¬ ((h.hcur + 127) % hist_cap ≡ h.hhead)
    → hist_up h
      ≡ (record h { hcur = (h.hcur + 127) % hist_cap }, h.hist ((h.hcur + 127) % hist_cap))
unfolding hist_up
hist_up_lem h some_line other = ground arith

-- After `n` times up from the head.
abbrev Moved : History → ℕ → History → Type 0
Moved h n h' =
    (h'.hist ≡ h.hist)
    × (h'.hlen ≡ h.hlen)
    × (h'.hhead ≡ h.hhead)
    × (h'.hcur ≡ (h.hhead + 128 - n) % hist_cap)

ups-Moved :
    (h : History) (n : ℕ)
    → h.hhead < hist_cap
    → h.hcur ≡ h.hhead
    → 0 < h.hlen
    → n < hist_cap
    → Moved h n (ups n h)
ups-Moved h zero lt reset some_line n<cap = (refl, refl, refl, omega arith)
ups-Moved h (suc n) lt reset some_line n<cap =
    let rest = ups-Moved h n lt reset some_line (omega arith) in
    let up = hist_up_lem (ups n h) (ground arith) (ground arith) in rw (ups, up) (ground arith)

-- What `hist_up` shows after `n` presses: of the lines that were entered and not empty, the one
-- `n` before the last, or nothing behind the first of them; 127 of them can be reached. There must
-- be one such line.
pub history_recall :
    (lines : List (List ℕ)) (n : ℕ)
    → 0 < length (nonempty lines)
    → n + 1 < hist_cap
    → (hist_up (ups n (enter lines))).1 ≡ get (nonempty lines) n
history_recall lines n some_line lt =
    let h = enter lines in
    let w = enter-IsReset lines in
    let stored : 0 < h.hlen = ground (arith, w.part) in
    let at = ups-Moved h n w.head w.cursor stored (omega arith) in
    let up = hist_up_lem (ups n h) (ground arith) (ground (arith, w.head)) in
    let slot : ((ups n h).hcur + 127) % hist_cap ≡ (h.hhead + 127 - n) % hist_cap =
      ground (arith, w.head) in
    let line = recent-enter lines n (omega arith) in rw (up, slot) (ground arith)

hist_down_lem :
    (h : History)
    → ¬ (h.hcur ≡ h.hhead)
    → let next = (h.hcur + 1) % hist_cap in
      hist_down h ≡ (record h { hcur = next }, if next == h.hhead then some [] else h.hist next)
unfolding hist_down
hist_down_lem h off = ground arith

-- What `hist_down` shows when it comes to the place `n` presses up from the head.
shown :
    (lines : List (List ℕ)) (n at : ℕ)
    → n < hist_cap
    → at ≡ ((enter lines).hhead + 128 - n) % hist_cap
    → (if at == (enter lines).hhead then some [] else (enter lines).hist at)
      ≡ get ([] ∷ nonempty lines) n
shown lines zero at lt e = let w = enter-IsReset lines in ground (arith, w.head)
shown lines (suc n) at lt e =
    let w = enter-IsReset lines in
    let line = recent-enter lines n (omega arith) in
    let slot : at ≡ ((enter lines).hhead + 127 - n) % hist_cap = omega (arith, e, w.head) in
    let off : ¬ (at ≡ (enter lines).hhead) = λ x. omega (arith, e, w.head, x) in
    ground (arith, line)

-- `hist_down` undoes a press of `hist_up`: it is back at the cursor before it, and shows the line
-- shown there, the empty line at the head.
pub hist_down-hist_up :
    (lines : List (List ℕ)) (n : ℕ)
    → 0 < length (nonempty lines)
    → n + 1 < hist_cap
    → let down = hist_down (ups (suc n) (enter lines)) in
      (down.0.hcur ≡ (ups n (enter lines)).hcur) × (down.1 ≡ get ([] ∷ nonempty lines) n)
hist_down-hist_up lines n some_line lt =
    let h = enter lines in
    let w = enter-IsReset lines in
    let stored : 0 < h.hlen = ground (arith, w.part) in
    let at = ups-Moved h n w.head w.cursor stored (omega arith) in
    let up = ups-Moved h (suc n) w.head w.cursor stored (omega arith) in
    let off : ¬ ((ups (suc n) h).hcur ≡ (ups (suc n) h).hhead) =
      λ e. omega (arith, w.head, up.2, up.3, e) in
    let back : ((ups (suc n) h).hcur + 1) % hist_cap ≡ (h.hhead + 128 - n) % hist_cap =
      omega (arith, w.head, up.3) in
    let down = hist_down_lem (ups (suc n) h) off in
    let line = shown lines n ((h.hhead + 128 - n) % hist_cap) (omega arith) refl in
    (rw (ups, down, back) (sym at.3), rw (ups, down, back, up.2, up.0) line)

get-end : (lines : List (List ℕ)) (n : ℕ) → length lines ≤ n → get lines n ≡ none
get-end [] n le = refl
get-end (line ∷ lines) zero le = absurd (omega arith)
get-end (line ∷ lines) (suc n) le = get-end lines n (omega arith)

-- When from 1 to 126 lines that are not empty were entered, a press of `hist_up` on the first of
-- them shows nothing but moves the cursor all the same; `hist_down` then shows that first line again.
pub hist_up-past_oldest :
    (lines : List (List ℕ)) (n : ℕ)
    → length (nonempty lines) ≡ suc n
    → n + 2 < hist_cap
    → let top = ups (suc n) (enter lines) in
      let past = hist_up top in
      (past.1 ≡ none) × ¬ (past.0.hcur ≡ top.hcur) × ((hist_down past.0).1 ≡ get (nonempty lines) n)
hist_up-past_oldest lines n count lt =
    let h = enter lines in
    let w = enter-IsReset lines in
    let stored : 0 < h.hlen = ground (arith, w.part) in
    let top = ups-Moved h (suc n) w.head w.cursor stored (omega arith) in
    let past = ups-Moved h (suc (suc n)) w.head w.cursor stored (omega arith) in
    (
      history_recall lines (suc n) (omega arith) (omega arith)
          ∙ get-end (nonempty lines) (suc n) (omega arith),
      λ e. omega (arith, w.head, top.3, past.3, e),
      (hist_down-hist_up lines (suc n) (omega arith) (omega arith)).1,
    )
