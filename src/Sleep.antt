-- ===== src/Sleep.antt =====
-- master/include/sleep_util.h and the copy for the slaves: `sleep_while` and `sleep_on`, one
-- instruction at a time, with interrupts that come in at any moment.
pub mod While
pub mod Loop
mod Tests
use ammc.Base.{Bool, true, false, List, [], ◌∷◌, ◌++◌, ◌≡◌, if◌then◌else◌}

-- Where the macros are: in front of `cli`, of the test of `expr`, of `sleep_enable`, of `sei`, of
-- `sleep_cpu` and of `sleep_disable`; in the sleep; and behind the macro, with SREG restored.
pub data Place : Type 0 where
  at_cli at_test at_enable at_sei at_sleep asleep at_disable behind : Place

-- The memory `W` that the interrupt routines share with the program, the interrupts `E` that are
-- pending, the interrupt flag with the copy that the macro keeps, and whether the last instruction
-- was `sei`: the processor carries out one more before an interrupt.
pub record Cpu (W E : Type 0) : Type 0 where
  pub place : Place
  pub memory : W
  pub pending : List E
  pub enabled : Bool
  pub saved : Bool
  pub after_sei : Bool

abbrev pub is_nil : {E : Type 0} → List E → Bool
is_nil [] = true
is_nil (e ∷ es) = false

-- Whether the next event is an interrupt, if one is pending.
abbrev pub interruptible : {W E : Type 0} → Cpu W E → Bool
interruptible c = if c.enabled then (if c.after_sei then false else true) else false

-- The place behind an interrupt: `sleep_cpu` returns.
unfoldable pub woken : Place → Place
woken asleep = at_disable
woken p = p

module _ {W E : Type 0} (handler : E → W → W) (expr : W → Bool) where
  -- The instructions of `sleep_while`, which goes `again` to its start behind a sleep, and of `sleep_on`,
  -- which does not.
  unfoldable pub instruction : Bool → Place → Cpu W E → Cpu W E
  instruction again at_cli c = record c { place = at_test; enabled = false; after_sei = false }
  instruction again at_test c =
      if expr c.memory
      then record c { place = at_enable; after_sei = false }
      else record c { place = behind; enabled = c.saved; after_sei = false }
  instruction again at_enable c = record c { place = at_sei; after_sei = false }
  instruction again at_sei c = record c { place = at_sleep; enabled = true; after_sei = true }
  instruction again at_sleep c = record c { place = asleep; after_sei = false }
  instruction again asleep c = c
  instruction again at_disable c =
      if again
      then record c { place = at_cli; after_sei = false }
      else record c { place = behind; enabled = c.saved; after_sei = false }
  instruction again behind c = c

  -- An interrupt comes in, is served, or the next instruction is carried out.
  pub data Step (again : Bool) (c : Cpu W E) : Cpu W E → Type 0 where
    arrive : (e : E) → Step again c (record c { pending = c.pending ++ e ∷ [] })
    serve :
        (e : E) (rest : List E)
        → c.pending ≡ e ∷ rest
        → interruptible c ≡ true
        → Step again c
            (record c { memory = handler e c.memory; pending = rest; place = woken c.place })
    execute :
        (if interruptible c then is_nil c.pending else true) ≡ true
        → Step again c (instruction again c.place c)

  abbrev pub entered : W → Bool → List E → Cpu W E
  entered w flag pending = record {
    place = at_cli;
    memory = w;
    pending = pending;
    enabled = flag;
    saved = flag;
    after_sei = false;
  }

  pub data Reach (again : Bool) (first : Cpu W E) : Cpu W E → Type 0 where
    start : Reach again first first
    later : {c d : Cpu W E} → Reach again first c → Step again c d → Reach again first d
