-- ===== src/Plant/Files/Scan.antt =====
-- An entry that was printed is read back.
use corestack_peky.Common.{
  ℕ, ◌≤◌, ◌≡◌, refl, arith, List, [], ◌∷◌, ◌++◌, length, take, some, Bool, true, false, ◌==◌,
  if◌then◌else◌, ◌>>=◌,
}
use corestack_peky.Plant.Files.{
  DaemonInfo, scan_entry, print_entry, print_int, scan_word, scan_rest, some_chars, is_space,
  skip_space,
}
use corestack_peky.Plant.Files.Numbers.{Passes, span-stop, scan_int-print_int}

abbrev pub solid : ℕ → Bool
solid c = if is_space c then false else true

abbrev pub inline : ℕ → Bool
inline c = if c == 10 then false else true

-- What the format can carry: a name of 1 to 63 characters without white space, a time of 1 to 127
-- characters within a line that starts with none.
pub record IsEntry (e : DaemonInfo) : Type 0 where
  pub name_some : 1 ≤ length e.name
  pub name_most : length e.name ≤ 63
  pub name_solid : Passes solid e.name
  pub time_some : 1 ≤ length e.timestamp
  pub time_most : length e.timestamp ≤ 127
  pub time_solid : Passes solid (take 1 e.timestamp)
  pub time_inline : Passes inline e.timestamp

some_chars-some : (w s : List ℕ) → 1 ≤ length w → some_chars (w, s) ≡ some (w, s)
some_chars-some [] s h = absurd (omega arith)
some_chars-some (c ∷ w) s h = refl

skip_space-solid : (w s : List ℕ) → 1 ≤ length w → Passes solid w → skip_space (w ++ s) ≡ w ++ s
skip_space-solid [] s h p = absurd (omega arith)
skip_space-solid (c ∷ w) s h (p, ps) = let hard : is_space c ≡ false = ground arith in rw hard refl

skip_space-time :
    (w s : List ℕ) → 1 ≤ length w → Passes solid (take 1 w) → skip_space (w ++ s) ≡ w ++ s
skip_space-time [] s h p = absurd (omega arith)
skip_space-time (c ∷ w) s h (p, ps) = let hard : is_space c ≡ false = ground arith in rw hard refl

scan_word-name :
    (w s : List ℕ)
    → 1 ≤ length w
    → length w ≤ 63
    → Passes solid w
    → scan_word 63 (w ++ (32 ∷ s)) ≡ some (w, 32 ∷ s)
scan_word-name w s h most p =
    rw (skip_space-solid w (32 ∷ s) h p, span-stop solid 63 w 32 s p refl most)
      (some_chars-some w (32 ∷ s) h)

scan_rest-time :
    (w : List ℕ)
    → 1 ≤ length w
    → length w ≤ 127
    → Passes solid (take 1 w)
    → Passes inline w
    → scan_rest 127 (32 ∷ (w ++ (10 ∷ []))) ≡ some (w, 10 ∷ [])
scan_rest-time w h most e p =
    rw (skip_space-time w (10 ∷ []) h e, span-stop inline 127 w 10 [] p refl most)
      (some_chars-some w (10 ∷ []) h)

-- `sscanf` reads back what `dprintf` wrote for an entry that the format can carry.
pub scan_entry-print_entry : (e : DaemonInfo) → IsEntry e → scan_entry (print_entry e) ≡ some e
unfolding scan_entry print_entry
scan_entry-print_entry e h =
    let tail = 32 ∷ (e.timestamp ++ (10 ∷ [])) in
    let name =
      scan_word-name e.name (print_int e.pid ++ tail) h.name_some h.name_most h.name_solid in
    let pid = scan_int-print_int e.pid (e.timestamp ++ (10 ∷ [])) in
    let time = scan_rest-time e.timestamp h.time_some h.time_most h.time_solid h.time_inline in
    rw (◌>>=◌, name, pid, time) refl
