-- ===== src/Plant/Registry/Entries.antt =====
-- The entries of the registry, and the loops over its lines as questions about them.
use corestack_peky.Common.{
  ℕ, zero, suc, ◌≡◌, refl, arith, List, [], ◌∷◌, none, some, Bool, false, take, ◌||◌, ◌&&◌,
  if◌then◌else◌,
}
use corestack_peky.Common.Int.{ℤ}
use corestack_peky.Text.{str_eq}
use corestack_peky.Plant.Files.{scan_entry, DaemonInfo}
use corestack_peky.Plant.Registry.{registered_loop, running_loop, gather_daemons}

-- The entries that lines hold; a line that is not one is passed over.
abbrev pub entries : List (List ℕ) → List DaemonInfo
entries [] = []
entries (line ∷ lines) =
    let rest = entries lines in elim (scan_entry line) [ none ↦ rest | some e ↦ e ∷ rest ]

abbrev pub filter : (DaemonInfo → Bool) → List DaemonInfo → List DaemonInfo
filter test [] = []
filter test (e ∷ es) = let rest = filter test es in if test e then e ∷ rest else rest

abbrev pub any : (DaemonInfo → Bool) → List DaemonInfo → Bool
any test [] = false
any test (e ∷ es) = test e || any test es

abbrev pub pids : List DaemonInfo → List ℤ
pids [] = []
pids (e ∷ es) = e.pid ∷ pids es

pub registered_loop_lem :
    (lines : List (List ℕ)) (name : List ℕ)
    → registered_loop lines name ≡ any (λ e. str_eq e.name name) (entries lines)
registered_loop_lem [] name = refl
registered_loop_lem (line ∷ lines) name = ground (arith, registered_loop_lem lines name)

pub running_loop_lem :
    (proc : ℤ → Bool) (lines : List (List ℕ)) (name : List ℕ)
    → running_loop proc lines name ≡ any (λ e. str_eq e.name name && proc e.pid) (entries lines)
running_loop_lem proc [] name = refl
running_loop_lem proc (line ∷ lines) name = ground (arith, running_loop_lem proc lines name)

pub gather_daemons_lem :
    (proc : ℤ → Bool) (left : ℕ) (lines : List (List ℕ))
    → gather_daemons proc left lines ≡ take left (filter (λ e. proc e.pid) (entries lines))
gather_daemons_lem proc zero [] = refl
gather_daemons_lem proc (suc left) [] = refl
gather_daemons_lem proc zero (line ∷ lines) = refl
gather_daemons_lem proc (suc left) (line ∷ lines) =
    ground (arith, gather_daemons_lem proc left lines, gather_daemons_lem proc (suc left) lines)
