-- ===== src/Plant/Tests.antt =====
-- Runs of the plant daemon.
use corestack_peky.Common.{
  ℕ, zero, suc, ◌+◌, ◌≤◌, ◌≡◌, refl, ap, arith, List, [], ◌∷◌, Option, none, some, Bool, true,
  false, ◌||◌, ◌&&◌,
}
use corestack_peky.Common.Int.{ℤ, pos}
use corestack_peky.Text.{str_eq}
use corestack_peky.Plant.Stats.{
  PlantStats, stored, World, Event, wake, water, daemon_start, wake_up, run, plant_init, cycle,
}
use corestack_peky.Plant.Life.{wakes, SameLife, run-wakes, run-dead, cycles}
use corestack_peky.Plant.Invariant.{IsSound, run-daemon_start}
use corestack_peky.Plant.Restart.{restart-dead}
use corestack_peky.Plant.Files.{DaemonInfo, scan_entry, print_entry, print_nat}
use corestack_peky.Plant.Files.Scan.{IsEntry, scan_entry-print_entry}
use corestack_peky.Plant.Registry.{
  is_daemon_registered, daemon_register, is_plant_running, dkill_auto, add_to_graveyard,
  count_buried, lines_of, eqℤ,
}
use corestack_peky.Plant.Registry.Entries.{pids, any, entries}
use corestack_peky.Plant.Registry.Register.{daemon_register_lem}
use corestack_peky.Plant.Registry.Kill.{targets, dkill_auto-targets, dkill_auto_self}
use corestack_peky.Plant.Registry.Graves.{add_to_graveyard_lem}
use corestack_peky.Plant.Command.{
  dplant_word, respawn_plant, spawned, not_running, dplant, respawn_word, water_word,
}
use corestack_peky.Plant.Command.Respawn.{dplant_respawned}

abbrev fresh : World
fresh = record { plant = plant_init 1000; file = some (plant_init 1000); alive = true }

abbrev watered_often : List Event
watered_often = wake 1060 stored ∷ water 1070 stored ∷ wake 1130 stored ∷ []

run-wakes_example : SameLife (run watered_often fresh) (run (wakes watered_often) fresh)
run-wakes_example = run-wakes watered_often fresh

-- A wake-up each minute, and a watering before it.
abbrev minutes : ℕ → ℕ → List Event
minutes now zero = []
minutes now (suc n) = water (now + 50) stored ∷ wake (now + 60) stored ∷ minutes (now + 60) n

forty_minutes : 40 ≤ cycles fresh.plant.last_updated (minutes 1000 40)
unfolding plant_init
forty_minutes = omega arith

fresh-bounds : IsSound 1 (run [] fresh)
unfolding daemon_start
fresh-bounds = run-daemon_start [] 1000 stored fresh refl

run-dead_example : (run (minutes 1000 40) fresh).alive ≡ false
unfolding run
run-dead_example = run-dead (minutes 1000 40) fresh fresh-bounds.plant_bounds forty_minutes

started : daemon_start 1000 stored none ≡ some fresh
unfolding daemon_start
started = refl

run-daemon_start_example : IsSound 1 (run watered_often fresh)
run-daemon_start_example = run-daemon_start watered_often 1000 stored fresh started

-- A plant that its next cycle kills.
abbrev dry_plant : PlantStats
dry_plant = record {
  waterlevel = 5;
  health = pos 3;
  level = 7;
  last_watered = 0;
  last_updated = 1000;
}

abbrev dry_world : World
dry_world = record { plant = dry_plant; file = some dry_plant; alive = true }

abbrev restarted : World
restarted = record {
  plant = cycle 1060 dry_plant;
  file = some (cycle 1060 dry_plant);
  alive = true;
}

dry-dies : (wake_up 1060 stored dry_world).alive ≡ false
unfolding wake_up cycle
dry-dies = refl

dry-restarts : daemon_start 2000 stored (wake_up 1060 stored dry_world).file ≡ some restarted
unfolding wake_up daemon_start cycle
dry-restarts = refl

restart-dead_example : (wake_up 2010 stored restarted).alive ≡ false
restart-dead_example =
    restart-dead 1060 2000 2010 stored stored dry_world restarted refl refl dry-dies dry-restarts

-- "fern" under the pid 77
abbrev fern : DaemonInfo
fern = record {
  name = 102 ∷ 101 ∷ 114 ∷ 110 ∷ [];
  pid = pos 77;
  timestamp = 84 ∷ 117 ∷ 101 ∷ 32 ∷ 49 ∷ [];
}

fern-IsEntry : IsEntry fern
fern-IsEntry = record {
  name_some = omega arith;
  name_most = omega arith;
  name_solid = (refl, (refl, (refl, (refl, tt))));
  time_some = omega arith;
  time_most = omega arith;
  time_solid = (refl, tt);
  time_inline = (refl, (refl, (refl, (refl, (refl, tt)))));
}

scan_entry-print_entry_example : scan_entry (print_entry fern) ≡ some fern
scan_entry-print_entry_example = scan_entry-print_entry fern fern-IsEntry

not-registered : is_daemon_registered none fern.name ≡ false
unfolding is_daemon_registered
not-registered = refl

pid-short : print_nat 77 ≡ 55 ∷ 55 ∷ []
unfolding print_nat
pid-short = refl

daemon_register_lem_example :
    (is_daemon_registered (daemon_register true fern none) fern.name
      ≡ (is_daemon_registered none fern.name || str_eq fern.name fern.name))
    × (is_plant_running (eqℤ (pos 77)) (daemon_register true fern none) fern.name
        ≡ (is_plant_running (eqℤ (pos 77)) none fern.name || str_eq fern.name fern.name && true))
daemon_register_lem_example =
    daemon_register_lem fern none (eqℤ (pos 77)) fern.name fern-IsEntry (rw pid-short (omega arith))
      tt not-registered

abbrev registry : Option (List ℕ)
registry = some (print_entry fern)

fern-target : targets (λ p. true) fern.name registry ≡ fern ∷ []
unfolding print_entry print_nat scan_entry
fern-target = refl

dkill_auto_self_example :
    dkill_auto (pos 77) (λ p. true) true (84 ∷ []) (λ p. true) fern.name registry none
    ≡ record { signalled = pos 77 ∷ []; graveyard = none; ended = true }
dkill_auto_self_example =
    dkill_auto_self (pos 77) (λ p. true) true (84 ∷ []) (λ p. true) fern.name registry none fern []
      fern-target refl

fern-other :
    (targets (λ p. true) fern.name registry ≡ fern ∷ [])
    → any (λ e. eqℤ e.pid (pos 5)) (targets (λ p. true) fern.name registry) ≡ false
fern-other same = rw same refl

dkill_auto-targets_example :
    ((dkill_auto (pos 5) (λ p. true) true (84 ∷ []) (λ p. true) fern.name registry none).signalled
      ≡ pids (targets (λ p. true) fern.name registry))
    × ((dkill_auto (pos 5) (λ p. true) true (84 ∷ []) (λ p. true) fern.name registry none).ended
        ≡ false)
dkill_auto-targets_example =
    dkill_auto-targets (pos 5) (λ p. true) true (84 ∷ []) (λ p. true) fern.name registry none
      (fern-other fern-target)

few : print_nat 0 ≡ 48 ∷ []
unfolding print_nat
few = refl

add_to_graveyard_lem_example :
    count_buried fern.name (lines_of 1023 (add_to_graveyard true fern.timestamp fern none))
    ≡ suc (count_buried fern.name (lines_of 1023 none))
add_to_graveyard_lem_example =
    add_to_graveyard_lem fern.timestamp fern none fern-IsEntry (rw pid-short (omega arith))
      (rw few (omega arith)) tt

gone :
    dplant (λ p. false) true true (fern.name ∷ respawn_word ∷ []) (pos 90) (84 ∷ []) registry
    ≡ (spawned, registry)
unfolding dplant dplant_word respawn_plant is_plant_running is_daemon_registered daemon_register
    print_entry print_nat scan_entry
gone = refl

unlisted :
    any
      (λ e. str_eq e.name fern.name && (eqℤ e.pid (pos 90) || eqℤ e.pid (pos 91)))
      (entries (lines_of 255 registry))
    ≡ false
unfolding print_entry print_nat scan_entry
unlisted = refl

respawns :
    (dplant (λ p. false) true true (fern.name ∷ respawn_word ∷ []) (pos 90) (84 ∷ []) registry).0
    ≡ spawned
respawns = ap (λ r. r.0) gone

abbrev since : ℤ → Bool
since p = eqℤ p (pos 90) || eqℤ p (pos 91)

dplant_respawned_example :
    ((dplant (λ p. false) true true (fern.name ∷ respawn_word ∷ []) (pos 90) (84 ∷ []) registry).1
      ≡ registry)
    × (dplant since true true (fern.name ∷ water_word ∷ []) (pos 91) (85 ∷ []) registry
        ≡ (not_running, registry))
dplant_respawned_example =
    dplant_respawned (λ p. false) since true true fern.name (pos 90) (pos 91) (84 ∷ []) (85 ∷ [])
      registry respawns (λ p h. h) unlisted
