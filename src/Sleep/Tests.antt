-- ===== src/Sleep/Tests.antt =====
-- A wait for a flag that an interrupt clears, and an idle master.
use ammc.Base.{ℕ, Bool, true, false, ◌≡◌, refl, List, [], ◌∷◌, some}
use ammc.ComError.{success}
use ammc.Samples.{blank, blank_locals, silent_bus}
use ammc.Master.Handler.{Handler, receiving}
use ammc.Sleep.{
  Cpu, asleep, instruction, interruptible, woken, Step, arrive, serve, execute, entered, Reach,
  start, later,
}
use ammc.Sleep.While.{sleeps_for_reason, ends_for_reason}
use ammc.Sleep.Loop.{rx_interrupt, nothing_done, main_pass, main_loop_sleeps}

-- The interrupt clears the flag that the program waits for.
abbrev clear : ℕ → Bool → Bool
clear e waiting = false

abbrev waiting_for : Bool → Bool
waiting_for flag = flag

-- A state, and that it is reached.
record Run : Type 0 where
  state : Cpu Bool ℕ
  reach : Reach clear waiting_for true (entered clear waiting_for true true []) state

abbrev go : (r : Run) {c : Cpu Bool ℕ} → Step clear waiting_for true r.state c → Run
go r {c} st = record { state = c; reach = later r.reach st }

abbrev begun : Run
begun = record { state = entered clear waiting_for true true []; reach = start }

-- An interrupt comes in behind `cli`: it is pending in the sleep.
abbrev sleeping : Run
unfolding instruction
sleeping =
    go
      (go (go (go (go (go begun (execute refl)) (arrive 7)) (execute refl)) (execute refl))
        (execute refl))
      (execute refl)

-- It ends the sleep, and the test finds the flag cleared.
abbrev tested : Run
unfolding sleeping instruction woken
tested = go (go (go sleeping (serve 7 [] refl refl)) (execute refl)) (execute refl)

sleeps_for_reason_example : (sleeping.state.memory ≡ true) × (interruptible sleeping.state ≡ true)
unfolding sleeping instruction
sleeps_for_reason_example =
    sleeps_for_reason clear waiting_for true true true [] sleeping.reach refl

abbrev ended : Cpu Bool ℕ
unfolding tested sleeping instruction woken
ended = instruction clear waiting_for true tested.state.place tested.state

ends_for_reason_example : (waiting_for ended.memory ≡ false) × (ended.enabled ≡ true)
unfolding ended tested sleeping instruction woken
ends_for_reason_example =
    ends_for_reason clear waiting_for true true [] {d = ended} tested.reach (execute refl) (λ e. cc)
      refl

main_loop_sleeps_example :
    (first last : Cpu (Handler (List ℕ)) ℕ) × (main_pass silent_bus blank_locals 1 (record {
      state = receiving;
      comm = record { global_id = 3; port = record { input = []; output = [] }; world = [] };
      rx = blank;
      error = success;
      action_performed = 1;
    })
      ≡ some first)
    × Reach rx_interrupt nothing_done false first last
    × (last.place ≡ asleep)
    × (last.memory.comm.port.input ≡ 170 ∷ [])
    × (last.pending ≡ [])
main_loop_sleeps_example = main_loop_sleeps silent_bus blank_locals 0 3 [] [] blank success 1 170
