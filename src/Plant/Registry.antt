-- ===== src/Plant/Registry.antt =====
-- The daemons' registry, tmp/daemons.reg, and their graveyard, tmp/cematary.reg, as dplant.c reads
-- and writes them. A file is its bytes; none: it cannot be opened for reading.
pub mod Entries
pub mod Register
pub mod Kill
pub mod Graves
use corestack_peky.Common.{
  ℕ, zero, suc, ◌+◌, List, [], ◌∷◌, ◌++◌, Option, none, some, Bool, true, false, ◌==◌, ◌||◌, ◌&&◌,
  not, if◌then◌else◌,
}
use corestack_peky.Common.Int.{ℤ, pos, negsuc}
use corestack_peky.Text.{str_eq}
use corestack_peky.Plant.Files.{fgets_lines, scan_entry, DaemonInfo, print_entry, print_nat}

abbrev pub eqℤ : ℤ → ℤ → Bool
eqℤ (pos m) (pos n) = m == n
eqℤ (pos m) (negsuc n) = false
eqℤ (negsuc m) (pos n) = false
eqℤ (negsuc m) (negsuc n) = m == n

abbrev pub max_daemons : ℕ
max_daemons = 64

-- The lines of a file, with a buffer of `cap + 1` bytes.
abbrev pub lines_of : ℕ → Option (List ℕ) → List (List ℕ)
lines_of cap none = []
lines_of cap (some bytes) = fgets_lines cap cap [] bytes

abbrev pub registered_loop : List (List ℕ) → List ℕ → Bool
registered_loop [] name = false
registered_loop (line ∷ lines) name =
    let rest = registered_loop lines name in
    elim (scan_entry line) [ none ↦ rest | some e ↦ if str_eq e.name name then true else rest ]

unfoldable pub is_daemon_registered : Option (List ℕ) → List ℕ → Bool
is_daemon_registered file name = registered_loop (lines_of 255 file) name

-- `open` with O_APPEND and O_CREAT, and a write; `opens`: it answered a descriptor.
abbrev pub append_to : Bool → List ℕ → Option (List ℕ) → Option (List ℕ)
append_to opens bytes none = if opens then some bytes else none
append_to opens bytes (some old) = if opens then some (old ++ bytes) else some old

-- `getpid()` and `ctime` without its newline are in the entry.
unfoldable pub daemon_register : Bool → DaemonInfo → Option (List ℕ) → Option (List ℕ)
daemon_register opens e file =
    if is_daemon_registered file e.name then file else append_to opens (print_entry e) file

-- `proc` tells which /proc/<pid> there are.
abbrev pub running_loop : (ℤ → Bool) → List (List ℕ) → List ℕ → Bool
running_loop proc [] name = false
running_loop proc (line ∷ lines) name =
    let rest = running_loop proc lines name in
    elim (scan_entry line) [
      | none ↦ rest
      | some e ↦ if str_eq e.name name && proc e.pid then true else rest
    ]

unfoldable pub is_plant_running : (ℤ → Bool) → Option (List ℕ) → List ℕ → Bool
is_plant_running proc file name = running_loop proc (lines_of 255 file) name

-- The table `daemons`, with so many places left.
abbrev pub gather_daemons : (ℤ → Bool) → ℕ → List (List ℕ) → List DaemonInfo
gather_daemons proc left [] = []
gather_daemons proc zero (line ∷ lines) = []
gather_daemons proc (suc left) (line ∷ lines) = elim (scan_entry line) [
  | none ↦ gather_daemons proc (suc left) lines
  | some e ↦ elim (proc e.pid) [
    | true ↦ e ∷ gather_daemons proc left lines
    | false ↦ gather_daemons proc (suc left) lines
  ]
]

-- `strncmp(line, name, strlen(name)) == 0`, and a blank or a dot behind it
abbrev pub buried_as : List ℕ → List ℕ → Bool
buried_as [] [] = false
buried_as [] (c ∷ line) = c == 32 || c == 46
buried_as (d ∷ name) [] = false
buried_as (d ∷ name) (c ∷ line) = d == c && buried_as name line

abbrev pub count_buried : List ℕ → List (List ℕ) → ℕ
count_buried name [] = 0
count_buried name (line ∷ lines) =
    let rest = count_buried name lines in if buried_as name line then suc rest else rest

abbrev pub modified_name : List ℕ → ℕ → List ℕ
modified_name name count = if count == 0 then name else name ++ (46 ∷ print_nat count)

-- `ts`: `ctime` without its newline
unfoldable pub add_to_graveyard : Bool → List ℕ → DaemonInfo → Option (List ℕ) → Option (List ℕ)
add_to_graveyard opens ts rip file =
    append_to opens
      (print_entry (record rip {
        name = modified_name rip.name (count_buried rip.name (lines_of 1023 file));
        timestamp = ts;
      }))
      file

-- What `dkill_auto` has done: the processes signalled, the graveyard, and whether the signal went to
-- the caller itself, which ends it.
pub record Killing : Type 0 where
  pub signalled : List ℤ
  pub graveyard : Option (List ℕ)
  pub ended : Bool

module _ (me : ℤ) (kills : ℤ → Bool) (opens : Bool) (ts : List ℕ) where
  -- `kills` tells which calls of `kill` answer 0.
  abbrev pub signal_one : DaemonInfo → Killing → Killing
  signal_one e k =
      if eqℤ e.pid me
      then record k { signalled = k.signalled ++ (e.pid ∷ []); ended = true }
      else if kills e.pid
      then record k {
        signalled = k.signalled ++ (e.pid ∷ []);
        graveyard = add_to_graveyard opens ts e k.graveyard;
      }
      else record k { signalled = k.signalled ++ (e.pid ∷ []) }

  abbrev pub kill_step : List ℕ → DaemonInfo → Killing → Killing
  kill_step name e k = if k.ended || not (str_eq e.name name) then k else signal_one e k

  abbrev pub kill_named : List ℕ → List DaemonInfo → Killing → Killing
  kill_named name [] k = k
  kill_named name (e ∷ daemons) k = kill_named name daemons (kill_step name e k)

  unfoldable pub dkill_auto : (ℤ → Bool) → List ℕ → Option (List ℕ) → Option (List ℕ) → Killing
  dkill_auto proc name registry graveyard =
      kill_named name (gather_daemons proc max_daemons (lines_of 1023 registry))
        (record { signalled = []; graveyard = graveyard; ended = false })
