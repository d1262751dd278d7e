-- ===== src/Plant/Stats.antt =====
-- The plant of tetrish/system_programs/dplant.c: its numbers, its cycle, and a daemon's wake-ups.
use corestack_peky.Common.{
  ℕ, ◌+◌, ◌-◌, ◌*◌, ◌/◌, List, [], ◌∷◌, Option, none, some, Bool, true, ltb, leb, ◌==◌, ◌&&◌, not,
  if◌then◌else◌,
}
use corestack_peky.Common.Int.{ℤ, pos, negsuc, ◌-ℤ◌, lebℤ}

-- `waterlevel` and `level` are ints that no operation makes negative.
pub record PlantStats : Type 0 where
  pub waterlevel : ℕ
  pub health : ℤ
  pub level : ℕ
  pub last_watered : ℕ
  pub last_updated : ℕ

-- What `plant_init_state` sets.
unfoldable pub plant_init : ℕ → PlantStats
plant_init now = record {
  waterlevel = 100;
  health = pos 100;
  level = 1;
  last_watered = now;
  last_updated = now;
}

-- The change of `plant_water`.
unfoldable pub watered : ℕ → PlantStats → PlantStats
watered now p = record p {
  waterlevel = if ltb 99 (p.waterlevel + 20) then 100 else p.waterlevel + 20;
  last_watered = now;
  last_updated = now;
}

-- The `if (seconds_passed >= 60)` of `daemon_work`, on the plant.
abbrev pub due : ℕ → PlantStats → Bool
due now p = leb 60 (now - p.last_updated)

abbrev pub dried : ℕ → PlantStats → ℕ
dried now p = p.waterlevel - (now - p.last_updated) / 60 * 5

abbrev pub next_health : ℕ → ℤ → ℤ
next_health water health =
    if water == 0
    then health -ℤ pos 5
    else if ltb 80 water && lebℤ health (pos 99)
    then health -ℤ negsuc 0
    else health

unfoldable pub cycle : ℕ → PlantStats → PlantStats
cycle now p =
    let water = dried now p in
    let health = next_health water p.health in
    record p {
      waterlevel = water;
      health = health;
      level = if not (lebℤ health (pos 95)) && ltb 95 water then p.level + 1 else p.level;
      last_updated = now;
    }

-- A daemon's plant, the image in tmp/<name>.state (none: missing or too short), and whether the
-- process is still there.
pub record World : Type 0 where
  pub plant : PlantStats
  pub file : Option PlantStats
  pub alive : Bool

-- How the writing of the state file went: `open` failed, or the file was cut to nothing and `write`
-- failed or wrote too little, or the whole struct was written.
pub data Saving : Type 0 where
  unopened : Saving
  cut_short : Saving
  stored : Saving

abbrev pub plant_save : Saving → PlantStats → Option PlantStats → Option PlantStats
plant_save unopened p file = file
plant_save cut_short p file = none
plant_save stored p file = some p

-- `daemon_work` before its loop: the file's plant, or a new one; none: the process exits.
unfoldable pub daemon_start : ℕ → Saving → Option PlantStats → Option World
daemon_start now saving (some p) = some (record { plant = p; file = some p; alive = true })
daemon_start now unopened none = none
daemon_start now cut_short none =
    some (record { plant = plant_init now; file = none; alive = true })
daemon_start now stored none =
    some (record { plant = plant_init now; file = some (plant_init now); alive = true })

-- A round of the loop of `daemon_work`; a plant whose health is 0 or less dies, and exits.
unfoldable pub wake_up : ℕ → Saving → World → World
wake_up now saving w =
    let p = if due now w.plant then cycle now w.plant else w.plant in
    let file = if due now w.plant then plant_save saving p w.file else w.file in
    if w.alive then record { plant = p; file = file; alive = not (lebℤ p.health (pos 0)) } else w

-- `plant_water`, a process of its own.
unfoldable pub plant_water : ℕ → Saving → World → World
plant_water now saving w = elim (w.file) [
  | none ↦ w
  | some p ↦ record w { file = plant_save saving (watered now p) (some p) }
]

-- What happens to a plant, in order.
pub data Event : Type 0 where
  wake : ℕ → Saving → Event
  water : ℕ → Saving → Event

unfoldable pub happen : Event → World → World
happen (wake now saving) w = wake_up now saving w
happen (water now saving) w = plant_water now saving w

unfoldable pub run : List Event → World → World
run [] w = w
run (e ∷ es) w = run es (happen e w)
