-- ===== src/Plant/Registry/Kill.antt =====
-- Whom `dkill_auto` signals.
use corestack_peky.Common.{
  ℕ, ◌≡◌, refl, sym, subst, ap, ◌∙◌, arith, List, [], ◌∷◌, ◌++◌, append_assoc, append-nil, Option,
  Bool, Bool-cases, inl, inr, true, false, take, ◌||◌, not, if◌then◌else◌,
}
use corestack_peky.Common.Int.{ℤ}
use corestack_peky.Text.{str_eq}
use corestack_peky.Plant.Files.{DaemonInfo}
use corestack_peky.Plant.Registry.{
  lines_of, kill_named, kill_step, signal_one, Killing, eqℤ, dkill_auto, max_daemons,
}
use corestack_peky.Plant.Registry.Entries.{entries, filter, any, pids, gather_daemons_lem}

-- The daemons of this name that the table has room for: those with a process, in the file's order.
abbrev pub targets : (ℤ → Bool) → List ℕ → Option (List ℕ) → List DaemonInfo
targets proc name registry =
    filter (λ e. str_eq e.name name)
      (take max_daemons (filter (λ e. proc e.pid) (entries (lines_of 1023 registry))))

List-head : {A : Type 0} {a b : A} {xs ys : List A} → a ∷ xs ≡ b ∷ ys → a ≡ b
List-head e = cc

module _ (me : ℤ) (kills : ℤ → Bool) (opens : Bool) (ts : List ℕ) where
  kill_step-skip :
      (name : List ℕ) (e : DaemonInfo) (k : Killing)
      → (k.ended || not (str_eq e.name name)) ≡ true
      → kill_step me kills opens ts name e k ≡ k
  kill_step-skip name e k h = ap (λ b. if b then k else signal_one me kills opens ts e k) h

  kill_step-signal :
      (name : List ℕ) (e : DaemonInfo) (k : Killing)
      → k.ended ≡ false
      → str_eq e.name name ≡ true
      → kill_step me kills opens ts name e k ≡ signal_one me kills opens ts e k
  kill_step-signal name e k going named =
      let test : (k.ended || not (str_eq e.name name)) ≡ false = ground arith in
      ap (λ b. if b then k else signal_one me kills opens ts e k) test

  signal_one-other :
      (e : DaemonInfo) (k : Killing)
      → k.ended ≡ false
      → eqℤ e.pid me ≡ false
      → ((signal_one me kills opens ts e k).signalled ≡ k.signalled ++ (e.pid ∷ []))
        × ((signal_one me kills opens ts e k).ended ≡ false)
  signal_one-other e k going other = ground arith

  filter-named :
      (name : List ℕ) (e : DaemonInfo) (es : List DaemonInfo)
      → str_eq e.name name ≡ true
      → filter (λ e. str_eq e.name name) (e ∷ es) ≡ e ∷ filter (λ e. str_eq e.name name) es
  filter-named name e es h = rw h refl

  filter-unnamed :
      (name : List ℕ) (e : DaemonInfo) (es : List DaemonInfo)
      → str_eq e.name name ≡ false
      → filter (λ e. str_eq e.name name) (e ∷ es) ≡ filter (λ e. str_eq e.name name) es
  filter-unnamed name e es h = rw h refl

  -- While no target is the caller, each target is signalled, in order.
  kill_named-others :
      (name : List ℕ) (es : List DaemonInfo) (k : Killing)
      → k.ended ≡ false
      → any (λ e. eqℤ e.pid me) (filter (λ e. str_eq e.name name) es) ≡ false
      → ((kill_named me kills opens ts name es k).signalled
          ≡ k.signalled ++ pids (filter (λ e. str_eq e.name name) es))
        × ((kill_named me kills opens ts name es k).ended ≡ false)
  kill_named-others name [] k going others = (sym (append-nil k.signalled), going)
  kill_named-others name (e ∷ es) k going others = elim (Bool-cases (str_eq e.name name)) [
    | inr f ↦
        let skip : kill_step me kills opens ts name e k ≡ k =
          kill_step-skip name e k (ground (arith, f)) in
        let list = filter-unnamed name e es f in
        subst
          (λ (k' : Killing).
            ((kill_named me kills opens ts name es k').signalled
              ≡ k.signalled ++ pids (filter (λ e. str_eq e.name name) (e ∷ es)))
            × ((kill_named me kills opens ts name es k').ended ≡ false))
          (sym skip) (rw list (kill_named-others name es k going (rw list at others)))
    | inl t ↦
        let list = filter-named name e es t in
        let me_not : eqℤ e.pid me ≡ false = ground (arith, rw list at others) in
        let later : any (λ e. eqℤ e.pid me) (filter (λ e. str_eq e.name name) es) ≡ false =
          ground (arith, rw list at others) in
        let k' = kill_step me kills opens ts name e k in
        let step : k' ≡ signal_one me kills opens ts e k = kill_step-signal name e k going t in
        let (sent, still) = signal_one-other e k going me_not in
        let ih = kill_named-others name es k' (ap (λ x. x.ended) step ∙ still) later in
        (
          ih.0
              ∙ (ap (λ x. x ++ pids (filter (λ e. str_eq e.name name) es))
                    (ap (λ x. x.signalled) step ∙ sent)
                  ∙ (append_assoc k.signalled (e.pid ∷ [])
                        (pids (filter (λ e. str_eq e.name name) es))
                      ∙ ap (λ l. k.signalled ++ pids l) (sym list))),
          ih.1,
        )
  ]

  kill_named-ended :
      (name : List ℕ) (es : List DaemonInfo) (k : Killing)
      → k.ended ≡ true
      → kill_named me kills opens ts name es k ≡ k
  kill_named-ended name [] k ended = refl
  kill_named-ended name (e ∷ es) k ended =
      let skip : kill_step me kills opens ts name e k ≡ k =
        kill_step-skip name e k (ground arith) in
      ap (kill_named me kills opens ts name es) skip ∙ kill_named-ended name es k ended

  kill_named_self :
      (name : List ℕ) (es rest : List DaemonInfo) (e : DaemonInfo) (k : Killing)
      → k.ended ≡ false
      → filter (λ e. str_eq e.name name) es ≡ e ∷ rest
      → eqℤ e.pid me ≡ true
      → kill_named me kills opens ts name es k
        ≡ record k { signalled = k.signalled ++ (e.pid ∷ []); ended = true }
  kill_named_self name [] rest e k going first self = absurd (ground arith)
  kill_named_self name (d ∷ es) rest e k going first self = elim (Bool-cases (str_eq d.name name)) [
    | inr f ↦
        let skip : kill_step me kills opens ts name d k ≡ k =
          kill_step-skip name d k (ground (arith, f)) in
        ap (kill_named me kills opens ts name es) skip
        ∙ kill_named_self name es rest e k going (sym (filter-unnamed name d es f) ∙ first) self
    | inl t ↦
        let heads : d ≡ e = List-head (sym (filter-named name d es t) ∙ first) in
        let step : kill_step me kills opens ts name d k ≡ signal_one me kills opens ts e k =
          kill_step-signal name d k going t ∙ ap (λ x. signal_one me kills opens ts x k) heads in
        let done : signal_one me kills opens ts e k
            ≡ record k { signalled = k.signalled ++ (e.pid ∷ []); ended = true } =
          rw self refl in
        ap (kill_named me kills opens ts name es) (step ∙ done)
        ∙ kill_named-ended name es
            (record k { signalled = k.signalled ++ (e.pid ∷ []); ended = true }) refl
  ]

  -- `dkill_auto` that finds no entry of the caller itself among its targets signals exactly the
  -- targets, in order: of the first 64 entries with a process, those with the name; it returns.
  pub dkill_auto-targets :
      (proc : ℤ → Bool) (name : List ℕ) (registry graveyard : Option (List ℕ))
      → any (λ e. eqℤ e.pid me) (targets proc name registry) ≡ false
      → ((dkill_auto me kills opens ts proc name registry graveyard).signalled
          ≡ pids (targets proc name registry))
        × ((dkill_auto me kills opens ts proc name registry graveyard).ended ≡ false)
  unfolding dkill_auto
  dkill_auto-targets proc name registry graveyard others =
      let table = gather_daemons_lem proc max_daemons (lines_of 1023 registry) in
      rw table (
        kill_named-others name
          (take max_daemons (filter (λ e. proc e.pid) (entries (lines_of 1023 registry))))
          (record { signalled = []; graveyard = graveyard; ended = false }) refl others)

  -- When the first target of `dkill_auto` is the caller itself, as for a plant that dies under the
  -- pid it registered, the signal ends the caller: nobody else is signalled, and nobody is buried.
  pub dkill_auto_self :
      (proc : ℤ → Bool) (name : List ℕ) (registry graveyard : Option (List ℕ)) (e : DaemonInfo)
      (rest : List DaemonInfo)
      → targets proc name registry ≡ e ∷ rest
      → eqℤ e.pid me ≡ true
      → dkill_auto me kills opens ts proc name registry graveyard
        ≡ record { signalled = e.pid ∷ []; graveyard = graveyard; ended = true }
  unfolding dkill_auto
  dkill_auto_self proc name registry graveyard e rest first self =
      let table = gather_daemons_lem proc max_daemons (lines_of 1023 registry) in
      rw table (
        kill_named_self name
          (take max_daemons (filter (λ e. proc e.pid) (entries (lines_of 1023 registry)))) rest e
          (record { signalled = []; graveyard = graveyard; ended = false }) refl first self)
