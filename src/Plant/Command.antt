-- ===== src/Plant/Command.antt =====
-- `main` and `respawn_plant` of dplant.c, on what they read and what they do to the registry.
pub mod Respawn
use corestack_peky.Common.{
  ℕ, List, [], ◌∷◌, Option, none, some, Bool, true, false, not, ◌&&◌, if◌then◌else◌,
}
use corestack_peky.Common.Int.{ℤ}
use corestack_peky.Text.{str_eq}
use corestack_peky.Plant.Files.{DaemonInfo}
use corestack_peky.Plant.Registry.{is_daemon_registered, daemon_register, is_plant_running}

-- What a call of dplant comes to. `spawned`: a daemon was started, and registered if its name was not.
pub data Outcome : Type 0 where
  usage : Outcome
  not_running : Outcome
  still_alive : Outcome
  not_registered : Outcome
  watered_plant : Outcome
  printed_stats : Outcome
  unknown_command : Outcome
  already_active : Outcome
  no_lock : Outcome
  nothing : Outcome
  spawned : Outcome

-- "respawn", "water", "stats"
abbrev pub respawn_word : List ℕ
respawn_word = 114 ∷ 101 ∷ 115 ∷ 112 ∷ 97 ∷ 119 ∷ 110 ∷ []

abbrev pub water_word : List ℕ
water_word = 119 ∷ 97 ∷ 116 ∷ 101 ∷ 114 ∷ []

abbrev pub stats_word : List ℕ
stats_word = 115 ∷ 116 ∷ 97 ∷ 116 ∷ 115 ∷ []

-- `e`: the name of the plant, the pid and the time that its daemon will register; `opens`: the
-- registry can be opened for appending; `locks`: the answer of `plant_lock`.
module _ (proc : ℤ → Bool) (opens locks : Bool) where
  unfoldable pub respawn_plant : DaemonInfo → Option (List ℕ) → Outcome × Option (List ℕ)
  respawn_plant e registry =
      if is_plant_running proc registry e.name
      then (still_alive, registry)
      else if not (is_daemon_registered registry e.name)
      then (not_registered, registry)
      else (spawned, daemon_register opens e registry)

  -- `dplant <name>`
  unfoldable pub dplant_start : DaemonInfo → Option (List ℕ) → Outcome × Option (List ℕ)
  dplant_start e registry =
      if is_plant_running proc registry e.name
      then (already_active, registry)
      else if not locks
      then (no_lock, registry)
      else if not (is_daemon_registered registry e.name)
      then (spawned, daemon_register opens e registry)
      else (nothing, registry)

  -- `dplant <name> <word>`
  unfoldable pub dplant_word : List ℕ → DaemonInfo → Option (List ℕ) → Outcome × Option (List ℕ)
  dplant_word word e registry =
      if not (is_plant_running proc registry e.name) && not (str_eq respawn_word word)
      then (not_running, registry)
      else if str_eq respawn_word word
      then respawn_plant e registry
      else if str_eq word water_word
      then (watered_plant, registry)
      else if str_eq word stats_word
      then (printed_stats, registry)
      else (unknown_command, registry)

  -- The arguments behind the program's name.
  unfoldable pub dplant : List (List ℕ) → ℤ → List ℕ → Option (List ℕ) → Outcome × Option (List ℕ)
  dplant [] pid ts registry = (usage, registry)
  dplant (name ∷ []) pid ts registry =
      dplant_start (record { name = name; pid = pid; timestamp = ts }) registry
  dplant (name ∷ word ∷ []) pid ts registry =
      dplant_word word (record { name = name; pid = pid; timestamp = ts }) registry
  dplant (name ∷ word ∷ more ∷ args) pid ts registry = (usage, registry)
