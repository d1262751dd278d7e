-- ===== src/Plant/Life.antt =====
-- What becomes of a plant.
use corestack_peky.Common.{
  ℕ, suc, ◌+◌, ◌-◌, ◌/◌, ◌≤◌, ◌<◌, ◌≡◌, refl, ap, ◌∙◌, arith, List, [], ◌∷◌, true, false, leb, ◌==◌,
  not, if◌then◌else◌, Bool-cases, inl, inr,
}
use corestack_peky.Common.Int.{pos, lebℤ, pos_part}
use corestack_peky.Plant.Stats.{
  PlantStats, Saving, World, Event, wake, water, due, cycle, watered, wake_up, plant_water, happen,
  run,
}

-- The events without the waterings.
abbrev pub wakes : List Event → List Event
wakes [] = []
wakes (wake now saving ∷ es) = wake now saving ∷ wakes es
wakes (water now saving ∷ es) = wakes es

-- What a daemon has in its memory, and whether it lives.
abbrev pub SameLife : World → World → Type 0
SameLife v w = (v.plant ≡ w.plant) × (v.alive ≡ w.alive)

wake_up-SameLife :
    (now : ℕ) (saving : Saving) (v w : World)
    → SameLife v w
    → SameLife (wake_up now saving v) (wake_up now saving w)
unfolding wake_up
wake_up-SameLife now saving v w same = ground arith

plant_water-SameLife :
    (now : ℕ) (saving : Saving) (v w : World) → SameLife v w → SameLife (plant_water now saving v) w
unfolding plant_water
plant_water-SameLife now saving v w same = ground arith

run-SameLife :
    (es : List Event) (v w : World) → SameLife v w → SameLife (run es v) (run (wakes es) w)
unfolding run happen
run-SameLife [] v w same = same
run-SameLife (wake now saving ∷ es) v w same =
    run-SameLife es (wake_up now saving v) (wake_up now saving w)
      (wake_up-SameLife now saving v w same)
run-SameLife (water now saving ∷ es) v w same =
    run-SameLife es (plant_water now saving v) w (plant_water-SameLife now saving v w same)

-- Waterings do nothing for a daemon: whenever they come, its plant in memory, and whether it lives,
-- are what they would be without them.
pub run-wakes : (es : List Event) (w : World) → SameLife (run es w) (run (wakes es) w)
run-wakes es w = run-SameLife es w w (refl, refl)

-- How many wake-ups come a minute or more after the cycle before them.
abbrev pub cycles : ℕ → List Event → ℕ
cycles last [] = 0
cycles last (water now saving ∷ es) = cycles last es
cycles last (wake now saving ∷ es) =
    let counts = leb 60 (now - last) in
    let rest = cycles (if counts then now else last) es in if counts then suc rest else rest

-- The bounds that the code keeps.
pub record IsBounded (p : PlantStats) : Type 0 where
  pub water_most : p.waterlevel ≤ 100
  pub health_most : pos_part p.health ≤ 100

pub cycle-IsBounded : (now : ℕ) (p : PlantStats) → IsBounded p → IsBounded (cycle now p)
unfolding cycle
cycle-IsBounded now p b = ground arith

pub watered-IsBounded : (now : ℕ) (p : PlantStats) → IsBounded p → IsBounded (watered now p)
unfolding watered
watered-IsBounded now p b = ground arith

-- The cycles that a plant has left at most.
abbrev pub left : PlantStats → ℕ
left p = if p.waterlevel == 0 then (pos_part p.health + 4) / 5 else (p.waterlevel + 4) / 5 + 20

left-cycle :
    (now : ℕ) (p : PlantStats)
    → IsBounded p
    → due now p ≡ true
    → lebℤ (cycle now p).health (pos 0) ≡ false
    → (left (cycle now p) < left p) × (1 ≤ left (cycle now p))
unfolding cycle
left-cycle now p b h lives = ground arith

dead-run : (es : List Event) (w : World) → w.alive ≡ false → (run es w).alive ≡ false
unfolding run happen wake_up plant_water
dead-run [] w dead = dead
dead-run (wake now saving ∷ es) w dead = dead-run es (wake_up now saving w) (ground arith)
dead-run (water now saving ∷ es) w dead = dead-run es (plant_water now saving w) (ground arith)

wake_up-due :
    (now : ℕ) (saving : Saving) (w : World)
    → w.alive ≡ true
    → due now w.plant ≡ true
    → ((wake_up now saving w).plant ≡ cycle now w.plant)
      × ((wake_up now saving w).alive ≡ not (lebℤ (cycle now w.plant).health (pos 0)))
unfolding wake_up
wake_up-due now saving w lives d = ground arith

wake_up-early :
    (now : ℕ) (saving : Saving) (w : World)
    → due now w.plant ≡ false
    → (wake_up now saving w).plant ≡ w.plant
unfolding wake_up
wake_up-early now saving w d = ground arith

last_updated-cycle : (now : ℕ) (p : PlantStats) → (cycle now p).last_updated ≡ now
unfolding cycle
last_updated-cycle now p = refl

plant-water : (now : ℕ) (saving : Saving) (w : World) → (plant_water now saving w).plant ≡ w.plant
unfolding plant_water
plant-water now saving w = ground arith

-- With as many cycles as the plant has left, and one at least, it is dead.
dies :
    (es : List Event) (w : World)
    → IsBounded w.plant
    → left w.plant ≤ cycles w.plant.last_updated es
    → 1 ≤ cycles w.plant.last_updated es
    → (run es w).alive ≡ false
unfolding run happen
dies [] w b enough one = absurd (omega arith)
dies (water now saving ∷ es) w b enough one =
    let same = plant-water now saving w in
    dies es (plant_water now saving w) (rw same b) (rw same enough) (rw same one)
dies (wake now saving ∷ es) w b enough one = elim (Bool-cases w.alive) [
  | inr dead ↦ dead-run (wake now saving ∷ es) w dead
  | inl lives ↦ elim (Bool-cases (due now w.plant)) [
    | inr early ↦
        let same = wake_up-early now saving w early in
        dies es (wake_up now saving w) (rw same b) (rw same (rw early at enough))
          (rw same (rw early at one))
    | inl d ↦
        let (next, alive) = wake_up-due now saving w lives d in
        elim (Bool-cases (lebℤ (cycle now w.plant).health (pos 0))) [
          | inl gone ↦ dead-run es (wake_up now saving w) (alive ∙ ap not gone)
          | inr stays ↦
              let (fewer, more) = left-cycle now w.plant b d stays in
              let counted : cycles w.plant.last_updated (wake now saving ∷ es)
                  ≡ suc (cycles now es) =
                rw d refl in
              let last : (wake_up now saving w).plant.last_updated ≡ now =
                ap (λ p. p.last_updated) next ∙ last_updated-cycle now w.plant in
              dies es (wake_up now saving w) (rw next (cycle-IsBounded now w.plant b))
                (rw (next, last_updated-cycle now w.plant) (omega (arith, fewer, enough, counted)))
                (rw (next, last_updated-cycle now w.plant)
                  (omega (arith, fewer, more, enough, counted)))
        ]
  ]
]

left_most : (p : PlantStats) → IsBounded p → left p ≤ 40
left_most p b = ground arith

-- A plant dies, watered or not: a daemon whose plant keeps the bounds is dead once forty wake-ups
-- have come a minute or more after the cycle before them, whatever the other wake-ups and the
-- waterings between them.
pub run-dead :
    (es : List Event) (w : World)
    → IsBounded w.plant
    → 40 ≤ cycles w.plant.last_updated es
    → (run es w).alive ≡ false
run-dead es w b enough = dies es w b (omega (arith, left_most w.plant b)) (omega arith)
