-- ===== src/Plant/Registry/Register.antt =====
-- What registering a daemon does to the questions about the registry.
use corestack_peky.Common.{
  ℕ, suc, ◌≤◌, ◌<◌, ◌≡◌, refl, sym, ap, ◌∙◌, arith, List, [], ◌∷◌, ◌++◌, append_assoc, length,
  length-append, Option, none, some, Bool, true, false, ◌||◌, ◌&&◌,
}
use corestack_peky.Common.Int.{ℤ, pos, negsuc}
use corestack_peky.Text.{str_eq}
use corestack_peky.Plant.Files.{
  DaemonInfo, scan_entry, print_entry, print_int, print_nat, fgets_lines, is_digit,
}
use corestack_peky.Plant.Files.Numbers.{Passes, Passes-append, print_nat-Passes}
use corestack_peky.Plant.Files.Scan.{IsEntry, solid, inline, scan_entry-print_entry}
use corestack_peky.Plant.Files.Lines.{EndsLine, fgets_lines-append, fgets_lines-line}
use corestack_peky.Plant.Registry.{
  lines_of, append_to, is_daemon_registered, daemon_register, is_plant_running,
}
use corestack_peky.Plant.Registry.Entries.{entries, any, registered_loop_lem, running_loop_lem}

-- The file is missing, empty, or ends with the end of a line.
abbrev pub FileEnds : Option (List ℕ) → Type 0
FileEnds none = Unit {0}
FileEnds (some s) = EndsLine s

entries-append : (xs ys : List (List ℕ)) → entries (xs ++ ys) ≡ entries xs ++ entries ys
entries-append [] ys = refl
entries-append (x ∷ xs) ys = ground (arith, entries-append xs ys)

any-append :
    (test : DaemonInfo → Bool) (xs ys : List DaemonInfo)
    → any test (xs ++ ys) ≡ (any test xs || any test ys)
any-append test [] ys = refl
any-append test (x ∷ xs) ys = ground (arith, any-append test xs ys)

pub lines_of-append :
    (cap : ℕ) (line : List ℕ) (file : Option (List ℕ))
    → length line < cap
    → Passes inline line
    → FileEnds file
    → lines_of cap (append_to true (line ++ (10 ∷ [])) file)
      ≡ lines_of cap file ++ ((line ++ (10 ∷ [])) ∷ [])
lines_of-append cap line none h p ends = fgets_lines-line cap line h p
lines_of-append cap line (some old) h p ends =
    fgets_lines-append cap old (line ++ (10 ∷ [])) ends
    ∙ ap (λ l. fgets_lines cap cap [] old ++ l) (fgets_lines-line cap line h p)

-- An entry's line without its end.
abbrev pub entry_line : DaemonInfo → List ℕ
entry_line e = e.name ++ (32 ∷ (print_int e.pid ++ (32 ∷ e.timestamp)))

pub print_entry-line : (e : DaemonInfo) → print_entry e ≡ entry_line e ++ (10 ∷ [])
unfolding print_entry
print_entry-line e = sym (
    append_assoc e.name (32 ∷ (print_int e.pid ++ (32 ∷ e.timestamp))) (10 ∷ [])
    ∙ ap (λ x. e.name ++ (32 ∷ x)) (append_assoc (print_int e.pid) (32 ∷ e.timestamp) (10 ∷ [])))

pub solid-inline : (s : List ℕ) → Passes solid s → Passes inline s
solid-inline [] p = tt
solid-inline (c ∷ s) (p, ps) = (ground arith, solid-inline s ps)

pub digits-inline : (s : List ℕ) → Passes is_digit s → Passes inline s
digits-inline [] p = tt
digits-inline (c ∷ s) (p, ps) = (ground arith, digits-inline s ps)

print_int-inline : (n : ℤ) → Passes inline (print_int n)
print_int-inline (pos n) = digits-inline (print_nat n) (print_nat-Passes n)
print_int-inline (negsuc n) = (refl, digits-inline (print_nat (suc n)) (print_nat-Passes (suc n)))

pub line-inline :
    (e : DaemonInfo)
    → Passes inline e.name
    → Passes inline e.timestamp
    → Passes inline (entry_line e)
line-inline e p q =
    Passes-append inline e.name _ p
      (refl, Passes-append inline (print_int e.pid) _ (print_int-inline e.pid) (refl, q))

pub length-entry_line :
    (e : DaemonInfo) → IsEntry e → length (print_int e.pid) ≤ 11 → length (entry_line e) < 255
length-entry_line e h short =
    let a = length-append e.name (32 ∷ (print_int e.pid ++ (32 ∷ e.timestamp))) in
    let b = length-append (print_int e.pid) (32 ∷ e.timestamp) in
    omega (arith, a, b, h.name_most, h.time_most)

-- An entry that was appended is the last one.
entries-print_entry :
    (e : DaemonInfo) (file : Option (List ℕ))
    → IsEntry e
    → length (print_int e.pid) ≤ 11
    → FileEnds file
    → entries (lines_of 255 (append_to true (print_entry e) file))
      ≡ entries (lines_of 255 file) ++ (e ∷ [])
entries-print_entry e file h short ends =
    let line = entry_line e ++ (10 ∷ []) in
    let same = print_entry-line e in
    let read : scan_entry line ≡ some e = ap scan_entry (sym same) ∙ scan_entry-print_entry e h in
    let last : entries (line ∷ []) ≡ e ∷ [] = rw (entries, read) refl in
    ap (λ x. entries (lines_of 255 (append_to true x file))) same
    ∙ (ap entries (
          lines_of-append 255 (entry_line e) file (length-entry_line e h short)
            (line-inline e (solid-inline e.name h.name_solid) h.time_inline) ends)
        ∙ (entries-append (lines_of 255 file) (line ∷ [])
            ∙ ap (λ x. entries (lines_of 255 file) ++ x) last))

any-last :
    (test : DaemonInfo → Bool) (xs : List DaemonInfo) (e : DaemonInfo)
    → any test (xs ++ (e ∷ [])) ≡ (any test xs || test e)
any-last test xs e = ground (arith, any-append test xs (e ∷ []))

pub is_daemon_registered-any :
    (file : Option (List ℕ)) (name : List ℕ)
    → is_daemon_registered file name ≡ any (λ e. str_eq e.name name) (entries (lines_of 255 file))
unfolding is_daemon_registered
is_daemon_registered-any file name = registered_loop_lem (lines_of 255 file) name

pub is_plant_running-any :
    (proc : ℤ → Bool) (file : Option (List ℕ)) (name : List ℕ)
    → is_plant_running proc file name
      ≡ any (λ e. str_eq e.name name && proc e.pid) (entries (lines_of 255 file))
unfolding is_plant_running
is_plant_running-any proc file name = running_loop_lem proc (lines_of 255 file) name

-- Registering a daemon whose name is not registered, on a registry of whole lines that can be
-- opened, with a name, a pid and a time that the format carries: from then on exactly its name and
-- those registered before are registered, and exactly it, if there is its process, and the
-- plants that were running before are running.
pub daemon_register_lem :
    (e : DaemonInfo) (file : Option (List ℕ)) (proc : ℤ → Bool) (name : List ℕ)
    → IsEntry e
    → length (print_int e.pid) ≤ 11
    → FileEnds file
    → is_daemon_registered file e.name ≡ false
    → (is_daemon_registered (daemon_register true e file) name
        ≡ (is_daemon_registered file name || str_eq e.name name))
      × (is_plant_running proc (daemon_register true e file) name
          ≡ (is_plant_running proc file name || str_eq e.name name && proc e.pid))
unfolding daemon_register
daemon_register_lem e file proc name h short ends new =
    let next = append_to true (print_entry e) file in
    let old = entries (lines_of 255 file) in
    let now = entries-print_entry e file h short ends in
    let named = λ (d : DaemonInfo). str_eq d.name name in
    let runs = λ (d : DaemonInfo). str_eq d.name name && proc d.pid in
    rw (daemon_register, new)
      (
        is_daemon_registered-any next name
            ∙ (ap (any named) now
                ∙ (any-last named old e
                    ∙ ap (λ b. b || named e) (sym (is_daemon_registered-any file name)))),
        is_plant_running-any proc next name
            ∙ (ap (any runs) now
                ∙ (any-last runs old e
                    ∙ ap (λ b. b || runs e) (sym (is_plant_running-any proc file name)))),
      )
