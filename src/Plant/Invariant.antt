-- ===== src/Plant/Invariant.antt =====
-- What holds of every plant that `daemon_work` starts.
use corestack_peky.Common.{
  ℕ, ◌≤◌, ◌≡◌, arith, List, [], ◌∷◌, Option, none, some, Bool, true, false, if◌then◌else◌,
}
use corestack_peky.Plant.Stats.{
  PlantStats, Saving, unopened, cut_short, stored, World, Event, wake, water, due, cycle, watered,
  plant_init, plant_save, daemon_start, wake_up, plant_water, happen, run,
}
use corestack_peky.Plant.Life.{IsBounded, cycle-IsBounded, watered-IsBounded}

abbrev pub FileBounded : Option PlantStats → Type 0
FileBounded none = Unit {0}
FileBounded (some p) = IsBounded p

-- The plant in memory and the one in the file keep their bounds; a living daemon's plant has a level
-- of at least `level`.
pub record IsSound (level : ℕ) (w : World) : Type 0 where
  pub plant_bounds : IsBounded w.plant
  pub file_bounds : FileBounded w.file
  pub level_least : level ≤ w.plant.level

plant_init-IsBounded : (now : ℕ) → IsBounded (plant_init now)
unfolding plant_init
plant_init-IsBounded now = record { water_most = omega arith; health_most = omega arith }

level-cycle : (now : ℕ) (p : PlantStats) → p.level ≤ (cycle now p).level
unfolding cycle
level-cycle now p = ground arith

-- A wake-up by the outcome of its tests.
wake-cases :
    (level : ℕ) (lives d : Bool) (saving : Saving) (stays : Bool) (w : World) (q : PlantStats)
    → IsSound level w
    → IsBounded q
    → w.plant.level ≤ q.level
    → let p = if d then q else w.plant in
      IsSound level (
        if lives
        then record {
          plant = p;
          file = if d then plant_save saving p w.file else w.file;
          alive = stays;
        }
        else w)
wake-cases level false d saving stays w q s b l = s
wake-cases level true false saving stays w q s b l = record {
  plant_bounds = s.plant_bounds;
  file_bounds = s.file_bounds;
  level_least = s.level_least;
}
wake-cases level true true cut_short stays w q s b l = record {
  plant_bounds = b;
  file_bounds = tt;
  level_least = omega (arith, s.level_least);
}
wake-cases level true true unopened stays w q s b l = record {
  plant_bounds = b;
  file_bounds = s.file_bounds;
  level_least = omega (arith, s.level_least);
}
wake-cases level true true stored stays w q s b l = record {
  plant_bounds = b;
  file_bounds = b;
  level_least = omega (arith, s.level_least);
}

wake_up-IsSound :
    (now level : ℕ) (saving : Saving) (w : World)
    → IsSound level w
    → IsSound level (wake_up now saving w)
unfolding wake_up
wake_up-IsSound now level saving w s =
    wake-cases level w.alive (due now w.plant) saving _ w (cycle now w.plant) s
      (cycle-IsBounded now w.plant s.plant_bounds) (level-cycle now w.plant)

water-FileBounded :
    (now : ℕ) (saving : Saving) (p : PlantStats)
    → IsBounded p
    → FileBounded (plant_save saving (watered now p) (some p))
water-FileBounded now stored p b = watered-IsBounded now p b
water-FileBounded now cut_short p b = tt
water-FileBounded now unopened p b = b

plant_water-IsSound :
    (now level : ℕ) (saving : Saving) (p : PlantStats) (file : Option PlantStats) (lives : Bool)
    → IsSound level (record { plant = p; file = file; alive = lives })
    → IsSound level (plant_water now saving (record { plant = p; file = file; alive = lives }))
unfolding plant_water
plant_water-IsSound now level saving p none lives s = s
plant_water-IsSound now level saving p (some q) lives s = record {
  plant_bounds = s.plant_bounds;
  file_bounds = water-FileBounded now saving q s.file_bounds;
  level_least = s.level_least;
}

run-IsSound : (es : List Event) (level : ℕ) (w : World) → IsSound level w → IsSound level (run es w)
unfolding run happen
run-IsSound [] level w s = s
run-IsSound (wake now saving ∷ es) level w s =
    run-IsSound es level (wake_up now saving w) (wake_up-IsSound now level saving w s)
run-IsSound (water now saving ∷ es) level w s =
    run-IsSound es level (plant_water now saving w)
      (plant_water-IsSound now level saving w.plant w.file w.alive s)

-- A plant that `daemon_work` starts anew keeps, through any wake-ups and waterings, a water level
-- and a health of at most 100 and a level of at least 1; its state file, when it holds a plant,
-- keeps those first two bounds.
pub run-daemon_start :
    (es : List Event) (now : ℕ) (saving : Saving) (w : World)
    → daemon_start now saving none ≡ some w
    → IsSound 1 (run es w)
unfolding daemon_start plant_init
run-daemon_start es now unopened w e = absurd (ground arith)
run-daemon_start es now cut_short w e =
    let fresh : PlantStats = plant_init now in
    let started : World = record { plant = fresh; file = none; alive = true } in
    let same : started ≡ w = cc in
    rw (← same) (
      run-IsSound es 1 started (record {
        plant_bounds = plant_init-IsBounded now;
        file_bounds = tt;
        level_least = omega arith;
      }))
run-daemon_start es now stored w e =
    let fresh : PlantStats = plant_init now in
    let started : World = record { plant = fresh; file = some fresh; alive = true } in
    let same : started ≡ w = cc in
    let b = plant_init-IsBounded now in
    rw (← same) (
      run-IsSound es 1 started
        (record { plant_bounds = b; file_bounds = b; level_least = omega arith }))
