-- ===== src/Client/Ring/Threads/Tests.antt =====
-- Two threads: one pushes a byte while the other one waits for the lock, and then pops it.
use ammc.Base.{ℕ, ◌≡◌, refl, some, none, [], ◌∷◌}
use ammc.Queue.Defs.{push as put, pop as get, run}
use ammc.Client.Ring.{shifted_idx}
use ammc.Client.Ring.Refine.{contents}
use ammc.Client.Ring.Samples.{turned, turned-IsValid}
use ammc.Client.Ring.Threads.{
  working, access, update, System, Step, call, acquire, work, release, started, Reach, start, later,
}
use ammc.Client.Ring.Threads.Calls.{calls_linearize, no_deadlock, Enabled}

-- A state, and that it is reached.
record Run : Type 0 where
  state : System
  reach : Reach turned state

abbrev go : (r : Run) {t : System} → Step r.state t → Run
go r {t} st = record { state = t; reach = later r.reach st }

-- The first thread is behind its first access, and the second one waits.
abbrev pushing : Run
unfolding update access working
pushing =
    let begun : Run = record { state = started turned; reach = start } in
    let called = go begun (call 0 (put 5) refl) in
    let waits = go called (call 1 get refl) in
    let locked = go waits (acquire 0 (put 5) refl refl) in go locked (work 0 refl)

abbrev popped : Run
unfolding update access working shifted_idx
popped =
    let stored = go pushing (work 0 refl) in
    let moved = go stored (work 0 refl) in
    let unlocked = go moved (release 0 (put 5) (0, none) refl) in
    let locked = go unlocked (acquire 1 get refl refl) in
    let read = go locked (work 1 refl) in
    let shifted = go read (work 1 refl) in
    let reset = go shifted (work 1 refl) in go reset (release 1 get (0, some 5) refl)

calls_linearize_example : (0, none) ∷ (0, some 5) ∷ [] ≡ run 2 (contents turned) (put 5 ∷ get ∷ [])
unfolding popped
calls_linearize_example = calls_linearize turned popped.reach turned-IsValid

no_deadlock_example : (j : ℕ) × Enabled pushing.state j
unfolding update pushing
no_deadlock_example = no_deadlock turned 1 pushing.reach (λ e. cc)
