-- ===== src/Plant/Restart.antt =====
-- What the state file of a dead plant does to a daemon that is started on it.
use corestack_peky.Common.{
  ℕ, ◌≡◌, sym, ap, ◌∙◌, arith, Option, some, some-injective, true, false, Bool-cases, inl, inr,
}
use corestack_peky.Common.Int.{pos, lebℤ}
use corestack_peky.Plant.Stats.{
  PlantStats, Saving, stored, World, due, cycle, daemon_start, wake_up,
}

-- No water, and a health of 0 or less.
IsWithered : PlantStats → Type 0
IsWithered p = (p.waterlevel ≡ 0) × (lebℤ p.health (pos 0) ≡ true)

cycle-IsWithered :
    (now : ℕ) (p : PlantStats)
    → lebℤ p.health (pos 0) ≡ false
    → lebℤ (cycle now p).health (pos 0) ≡ true
    → IsWithered (cycle now p)
unfolding IsWithered cycle
cycle-IsWithered now p healthy dead = ground arith

IsWithered-cycle : (now : ℕ) (p : PlantStats) → IsWithered p → IsWithered (cycle now p)
unfolding IsWithered cycle
IsWithered-cycle now p withered = ground arith

-- A wake-up that kills is due, and its cycle withers the plant.
dead-IsWithered :
    (now : ℕ) (w : World)
    → w.alive ≡ true
    → lebℤ w.plant.health (pos 0) ≡ false
    → (wake_up now stored w).alive ≡ false
    → ((wake_up now stored w).file ≡ some (cycle now w.plant)) × IsWithered (cycle now w.plant)
unfolding wake_up
dead-IsWithered now w lives healthy died = elim (Bool-cases (due now w.plant)) [
  | inr early ↦ absurd (ground (arith, early))
  | inl d ↦ (ground (arith, d), cycle-IsWithered now w.plant healthy (ground (arith, d)))
]

IsWithered-dies :
    (now : ℕ) (saving : Saving) (p : PlantStats) (file : Option PlantStats)
    → IsWithered p
    → (wake_up now saving (record { plant = p; file = file; alive = true })).alive ≡ false
unfolding wake_up IsWithered
IsWithered-dies now saving p file withered =
    let next = (IsWithered-cycle now p withered).1 in ground (arith, next)

-- A plant that died of a cycle whose state was saved is not brought back by starting its daemon
-- again: the daemon reads that state, and its first wake-up kills it again.
pub restart-dead :
    (now now' now'' : ℕ) (saving saving' : Saving) (w w' : World)
    → w.alive ≡ true
    → lebℤ w.plant.health (pos 0) ≡ false
    → (wake_up now stored w).alive ≡ false
    → daemon_start now' saving (wake_up now stored w).file ≡ some w'
    → (wake_up now'' saving' w').alive ≡ false
unfolding daemon_start
restart-dead now now' now'' saving saving' w w' lives healthy died e =
    let p = cycle now w.plant in
    let (file, withered) = dead-IsWithered now w lives healthy died in
    let restarted : World = record { plant = p; file = some p; alive = true } in
    let same : restarted ≡ w' = some-injective _ _ (sym (ap (daemon_start now' saving) file) ∙ e) in
    rw (← same) (IsWithered-dies now'' saving' p (some p) withered)
