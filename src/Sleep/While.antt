-- ===== src/Sleep/While.antt =====
-- The processor does not sleep in vain.
use mathlib.Core.Path.{subst}
use ammc.Base.{Bool, true, false, List, ◌≡◌, ◌≢◌, refl, ◌∙◌, inl, inr, Bool-cases}
use ammc.Sleep.{
  Place, at_cli, at_test, at_enable, at_sei, at_sleep, asleep, at_disable, behind, Cpu,
  interruptible, woken, instruction, Step, arrive, serve, execute, entered, Reach, start, later,
}

module _ {W E : Type 0} (handler : E → W → W) (expr : W → Bool) where
  -- What is known at each place: behind `cli` no interrupt is served before the sleep.
  abbrev Sound : Place → Cpu W E → Type 0
  Sound at_test c = c.enabled ≡ false
  Sound at_enable c = (c.enabled ≡ false) × (expr c.memory ≡ true)
  Sound at_sei c = (c.enabled ≡ false) × (expr c.memory ≡ true)
  Sound at_sleep c = (c.enabled ≡ true) × (c.after_sei ≡ true) × (expr c.memory ≡ true)
  Sound asleep c = (c.enabled ≡ true) × (c.after_sei ≡ false) × (expr c.memory ≡ true)
  Sound _ c = Unit

  masked : (c : Cpu W E) → c.enabled ≡ false → interruptible c ≡ false
  masked c e = rw e refl

  graced : (c : Cpu W E) → c.enabled ≡ true → c.after_sei ≡ true → interruptible c ≡ false
  graced c e s = rw (e, s) refl

  Sound-serve :
      (p : Place) (c : Cpu W E) (e : E) (rest : List E)
      → interruptible c ≡ true
      → Sound p c
      → Sound (woken p) (record c { memory = handler e c.memory; pending = rest; place = woken p })
  unfolding woken
  Sound-serve at_test c e rest served k = let no = masked c k in cc
  Sound-serve at_enable c e rest served k = let no = masked c k.0 in cc
  Sound-serve at_sei c e rest served k = let no = masked c k.0 in cc
  Sound-serve at_sleep c e rest served k = let no = graced c k.0 k.1 in cc
  Sound-serve _ c e rest served k = tt

  Sound-instruction :
      (again : Bool) (p : Place) (c : Cpu W E)
      → c.place ≡ p
      → Sound p c
      → Sound (instruction handler expr again p c).place (instruction handler expr again p c)
  unfolding instruction
  Sound-instruction again at_cli c at k = refl
  Sound-instruction again at_test c at k = elim (Bool-cases (expr c.memory)) [
    | inl e ↦ rw e (k, e)
    | inr e ↦ rw e tt
  ]
  Sound-instruction again at_enable c at k = k
  Sound-instruction again at_sei c at k = (refl, refl, k.1)
  Sound-instruction again at_sleep c at k = (k.0, refl, k.2)
  Sound-instruction again asleep c at k = rw at k
  Sound-instruction true at_disable c at k = tt
  Sound-instruction false at_disable c at k = tt
  Sound-instruction again behind c at k = rw at tt

  saved-instruction :
      (again : Bool) (p : Place) (c : Cpu W E)
      → (instruction handler expr again p c).saved ≡ c.saved
  unfolding instruction
  saved-instruction again at_test c = elim (Bool-cases (expr c.memory)) [
    | inl e ↦ rw e refl
    | inr e ↦ rw e refl
  ]
  saved-instruction true at_disable c = refl
  saved-instruction false at_disable c = refl
  saved-instruction again _ c = refl

  record Inv (flag : Bool) (c : Cpu W E) : Type 0 where
    kept : c.saved ≡ flag
    sound : Sound c.place c

  Sound-arrive :
      (p : Place) (c : Cpu W E) (more : List E) → Sound p c → Sound p (record c { pending = more })
  Sound-arrive at_cli c more k = tt
  Sound-arrive at_test c more k = k
  Sound-arrive at_enable c more k = k
  Sound-arrive at_sei c more k = k
  Sound-arrive at_sleep c more k = k
  Sound-arrive asleep c more k = k
  Sound-arrive at_disable c more k = tt
  Sound-arrive behind c more k = tt

  Step-Inv :
      (again flag : Bool) {c d : Cpu W E} → Inv flag c → Step handler expr again c d → Inv flag d
  Step-Inv again flag {c} inv (arrive e) = record {
    kept = inv.kept;
    sound = Sound-arrive c.place c _ inv.sound;
  }
  Step-Inv again flag {c} inv (serve e rest next served) = record {
    kept = inv.kept;
    sound = Sound-serve c.place c e rest served inv.sound;
  }
  Step-Inv again flag {c} inv (execute free) = record {
    kept = saved-instruction again c.place c ∙ inv.kept;
    sound = Sound-instruction again c.place c refl inv.sound;
  }

  Reach-Inv :
      (again flag : Bool) (w : W) (pending : List E) {c : Cpu W E}
      → Reach handler expr again (entered handler expr w flag pending) c
      → Inv flag c
  Reach-Inv again flag w pending start = record { kept = refl; sound = tt }
  Reach-Inv again flag w pending (later r st) =
      Step-Inv again flag (Reach-Inv again flag w pending r) st

  -- `sleep_while` and `sleep_on`, with any interrupts at any moments: whenever the processor is
  -- asleep, the condition holds of the memory as the interrupts served so far have left it, and the
  -- next interrupt is served at once, which ends the sleep.
  pub sleeps_for_reason :
      (again flag : Bool) (w : W) (pending : List E) {c : Cpu W E}
      → Reach handler expr again (entered handler expr w flag pending) c
      → c.place ≡ asleep
      → (expr c.memory ≡ true) × (interruptible c ≡ true)
  sleeps_for_reason again flag w pending {c} r at =
      let (open_flag, grace, holds) =
        subst (λ p. Sound p c) at (Reach-Inv again flag w pending r).sound in
      (holds, rw (open_flag, grace) refl)

  woken-behind : (p : Place) → woken p ≡ behind → p ≡ behind
  unfolding woken
  woken-behind asleep e = cc
  woken-behind _ e = e

  ends-instruction :
      (p : Place) (c : Cpu W E)
      → c.place ≡ p
      → p ≢ behind
      → (instruction handler expr true p c).place ≡ behind
      → (expr (instruction handler expr true p c).memory ≡ false)
        × ((instruction handler expr true p c).enabled ≡ c.saved)
  unfolding instruction
  ends-instruction at_test c at inside ends = elim (Bool-cases (expr c.memory)) [
    | inl e ↦
        let here : (instruction handler expr true at_test c).place ≡ at_enable = rw e refl in cc
    | inr e ↦ rw (e, e) (refl, refl)
  ]
  ends-instruction at_cli c at inside ends = cc
  ends-instruction at_enable c at inside ends = cc
  ends-instruction at_sei c at inside ends = cc
  ends-instruction at_sleep c at inside ends = cc
  ends-instruction asleep c at inside ends = cc
  ends-instruction at_disable c at inside ends = cc
  ends-instruction behind c at inside ends = absurd (inside refl)

  -- `sleep_while` ends only with an instruction that finds the condition false, and leaves the
  -- interrupt flag as it was at the start.
  pub ends_for_reason :
      (flag : Bool) (w : W) (pending : List E) {c d : Cpu W E}
      → Reach handler expr true (entered handler expr w flag pending) c
      → Step handler expr true c d
      → c.place ≢ behind
      → d.place ≡ behind
      → (expr d.memory ≡ false) × (d.enabled ≡ flag)
  ends_for_reason flag w pending r (arrive e) inside ends = absurd (inside ends)
  ends_for_reason flag w pending {c} r (serve e rest next served) inside ends =
      absurd (inside (woken-behind c.place ends))
  ends_for_reason flag w pending {c} r (execute free) inside ends =
      let (done, flags) = ends-instruction c.place c refl inside ends in
      (done, flags ∙ (Reach-Inv true flag w pending r).kept)
