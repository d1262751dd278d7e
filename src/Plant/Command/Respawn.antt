-- ===== src/Plant/Command/Respawn.antt =====
-- What a respawned plant can be asked for.
use corestack_peky.Common.{
  ℕ, List, [], ◌∷◌, ◌≡◌, refl, sym, ◌∙◌, arith, Option, Bool, true, false, ◌&&◌, ◌||◌,
  if◌then◌else◌,
}
use corestack_peky.Common.Int.{ℤ}
use corestack_peky.Text.{str_eq}
use corestack_peky.Plant.Files.{DaemonInfo}
use corestack_peky.Plant.Registry.{daemon_register, is_plant_running, lines_of, eqℤ}
use corestack_peky.Plant.Registry.Entries.{entries, any}
use corestack_peky.Plant.Registry.Register.{is_plant_running-any}
use corestack_peky.Plant.Command.{
  Outcome, spawned, not_running, watered_plant, printed_stats, unknown_command, dplant, dplant_word,
  dplant_start, respawn_plant, respawn_word, water_word,
}

-- Processes by whose pid no entry of this name stands do not make its plant run.
any-unlisted :
    (proc proc' : ℤ → Bool) (pid pid' : ℤ) (name : List ℕ) (es : List DaemonInfo)
    → ((p : ℤ) → (eqℤ p pid || eqℤ p pid') ≡ false → proc' p ≡ proc p)
    → any (λ e. str_eq e.name name && (eqℤ e.pid pid || eqℤ e.pid pid')) es ≡ false
    → any (λ e. str_eq e.name name && proc e.pid) es ≡ false
    → any (λ e. str_eq e.name name && proc' e.pid) es ≡ false
any-unlisted proc proc' pid pid' name [] same new dead = refl
any-unlisted proc proc' pid pid' name (e ∷ es) same new dead =
    ground (arith, same e.pid, any-unlisted proc proc' pid pid' name es same)

-- A plant that `dplant <name> respawn` has started cannot be watered: when the respawned daemon and
-- the process that is to water it are the only ones that came or went, and no entry of the name has
-- one of their pids, the registry is as before, and `dplant <name> water` finds no running daemon.
pub dplant_respawned :
    (proc proc' : ℤ → Bool) (opens locks : Bool) (name : List ℕ) (pid pid' : ℤ) (ts ts' : List ℕ)
    (registry : Option (List ℕ))
    → (dplant proc opens locks (name ∷ respawn_word ∷ []) pid ts registry).0 ≡ spawned
    → ((p : ℤ) → (eqℤ p pid || eqℤ p pid') ≡ false → proc' p ≡ proc p)
    → any
        (λ e. str_eq e.name name && (eqℤ e.pid pid || eqℤ e.pid pid'))
        (entries (lines_of 255 registry))
      ≡ false
    → ((dplant proc opens locks (name ∷ respawn_word ∷ []) pid ts registry).1 ≡ registry)
      × (dplant proc' opens locks (name ∷ water_word ∷ []) pid' ts' registry
          ≡ (not_running, registry))
unfolding dplant dplant_word respawn_plant daemon_register
dplant_respawned proc proc' opens locks name pid pid' ts ts' registry did same new =
    let es = entries (lines_of 255 registry) in
    let was : is_plant_running proc registry name ≡ false = ground arith in
    let none_runs : any (λ e. str_eq e.name name && proc e.pid) es ≡ false =
      sym (is_plant_running-any proc registry name) ∙ was in
    let still : is_plant_running proc' registry name ≡ false =
      is_plant_running-any proc' registry name
      ∙ any-unlisted proc proc' pid pid' name es same new none_runs in
    (ground arith, ground (arith, still))

-- What a call that starts a daemon found, and what one that starts none leaves.
abbrev pub SpawnsOnce : (ℤ → Bool) → List ℕ → Option (List ℕ) → Outcome × Option (List ℕ) → Type 0
SpawnsOnce proc name registry done =
    (done.0 ≡ spawned → is_plant_running proc registry name ≡ false)
    × ((done.0 ≡ spawned → ⊥) → done.1 ≡ registry)

respawn_plant-SpawnsOnce :
    (proc : ℤ → Bool) (opens locks : Bool) (e : DaemonInfo) (registry : Option (List ℕ))
    → SpawnsOnce proc e.name registry (respawn_plant proc opens locks e registry)
unfolding respawn_plant
respawn_plant-SpawnsOnce proc opens locks e registry = (λ h. ground arith, λ h. ground arith)

dplant_start-SpawnsOnce :
    (proc : ℤ → Bool) (opens locks : Bool) (e : DaemonInfo) (registry : Option (List ℕ))
    → SpawnsOnce proc e.name registry (dplant_start proc opens locks e registry)
unfolding dplant_start
dplant_start-SpawnsOnce proc opens locks e registry = (λ h. ground arith, λ h. ground arith)

word-SpawnsOnce :
    (a b c d : Bool) (proc : ℤ → Bool) (name : List ℕ) (registry : Option (List ℕ))
    (respawned : Outcome × Option (List ℕ))
    → SpawnsOnce proc name registry respawned
    → SpawnsOnce proc name registry (
        if a
        then (not_running, registry)
        else if b
        then respawned
        else if c
        then (watered_plant, registry)
        else if d
        then (printed_stats, registry)
        else (unknown_command, registry))
word-SpawnsOnce true b c d proc name registry r h = (λ e. ground arith, λ e. refl)
word-SpawnsOnce false true c d proc name registry r h = h
word-SpawnsOnce false false true d proc name registry r h = (λ e. ground arith, λ e. refl)
word-SpawnsOnce false false false true proc name registry r h = (λ e. ground arith, λ e. refl)
word-SpawnsOnce false false false false proc name registry r h = (λ e. ground arith, λ e. refl)

-- A call that starts a daemon found none running under the name; a call that starts none leaves the
-- registry as it was.
pub dplant-SpawnsOnce :
    (proc : ℤ → Bool) (opens locks : Bool) (args : List (List ℕ)) (name : List ℕ) (pid : ℤ)
    (ts : List ℕ) (registry : Option (List ℕ))
    → SpawnsOnce proc name registry (dplant proc opens locks (name ∷ args) pid ts registry)
unfolding dplant dplant_word
dplant-SpawnsOnce proc opens locks [] name pid ts registry =
    dplant_start-SpawnsOnce proc opens locks (record { name = name; pid = pid; timestamp = ts })
      registry
dplant-SpawnsOnce proc opens locks (word ∷ []) name pid ts registry =
    let e : DaemonInfo = record { name = name; pid = pid; timestamp = ts } in
    word-SpawnsOnce _ _ _ _ proc name registry (respawn_plant proc opens locks e registry)
      (respawn_plant-SpawnsOnce proc opens locks e registry)
dplant-SpawnsOnce proc opens locks (word ∷ more ∷ args) name pid ts registry =
    (λ e. ground arith, λ e. refl)
