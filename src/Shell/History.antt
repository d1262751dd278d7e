-- ===== src/Shell/History.antt =====
-- The ring of past lines (src/tetrish/cmdline.c): `history`, `hist_up`, `hist_down`, `hist_free`.
pub mod Recall
use corestack_peky.Common.{
  ℕ, zero, suc, ◌+◌, ◌-◌, ◌*◌, ◌%◌, ◌<◌, ◌≤◌, ◌≡◌, ◌⊎◌, inl, inr, refl, arith, update, List, [],
  ◌∷◌, Option, none, some, Bool, true, false, ltb, ◌==◌, if◌then◌else◌, length, sym, ◌∙◌,
}

abbrev pub hist_cap : ℕ
hist_cap = 128

-- `hlen`, `hhead`, `hcur` and the array `hist`; `none` is NULL.
pub record History : Type 0 where
  pub hist : ℕ → Option (List ℕ)
  pub hlen : ℕ
  pub hhead : ℕ
  pub hcur : ℕ

abbrev pub empty_history : History
empty_history = record { hist = λ i. none; hlen = 0; hhead = 0; hcur = 0 }

unfoldable pub history : List ℕ → History → History
history [] h = h
history (c ∷ line) h = record {
  hist = update h.hist h.hhead (some (c ∷ line));
  hlen = if ltb h.hlen hist_cap then h.hlen + 1 else h.hlen;
  hhead = (h.hhead + 1) % hist_cap;
  hcur = (h.hhead + 1) % hist_cap;
}

unfoldable pub hist_up : History → History × Option (List ℕ)
hist_up h =
    let next = (h.hcur + 127) % hist_cap in
    if h.hlen == 0
    then (h, none)
    else if next == h.hhead
    then (h, none)
    else (record h { hcur = next }, h.hist next)

unfoldable pub hist_down : History → History × Option (List ℕ)
hist_down h =
    let next = (h.hcur + 1) % hist_cap in
    if h.hcur == h.hhead
    then (h, none)
    else (record h { hcur = next }, if next == h.hhead then some [] else h.hist next)

-- The loop frees every slot and leaves the pointers; nothing reads them again.
unfoldable pub hist_free : History → History
hist_free h = record h { hlen = 0; hhead = 0; hcur = 0 }

-- `hist_up` n times: where the cursor is then.
abbrev pub ups : ℕ → History → History
ups zero h = h
ups (suc n) h = (hist_up (ups n h)).0

-- The line that was entered `k` lines before the last one.
abbrev pub recent : History → ℕ → Option (List ℕ)
recent h k = h.hist ((h.hhead + 127 - k) % hist_cap)

-- The history of a list of lines, the last one first.
abbrev pub enter : List (List ℕ) → History
enter [] = empty_history
enter (line ∷ lines) = history line (enter lines)

abbrev pub nonempty : List (List ℕ) → List (List ℕ)
nonempty [] = []
nonempty ([] ∷ lines) = nonempty lines
nonempty ((c ∷ line) ∷ lines) = (c ∷ line) ∷ nonempty lines

abbrev pub get : List (List ℕ) → ℕ → Option (List ℕ)
get [] k = none
get (line ∷ lines) zero = some line
get (line ∷ lines) (suc k) = get lines k
