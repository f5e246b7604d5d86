-- ===== src/Sleep/Loop.antt =====
-- The main loop of master/source/main.c, which sleeps when its handler had nothing to do.
use ammc.Base.{ℕ, suc, true, false, Bool, Option, none, some, List, [], ◌∷◌, ◌++◌, ◌≡◌, refl, ◌==◌}
use ammc.Bus.{Bus}
use ammc.ComError.{ComError, success}
use ammc.Packet.{Packet}
use ammc.Master.Operations.{Locals}
use ammc.Master.Handler.{
  Handler, returns, continues, waits, overflows, receiving, round, rounds, communication_handler,
}
use ammc.Sleep.{
  asleep, Cpu, instruction, woken, arrive, serve, execute, entered, Reach, start, later,
}

-- A byte that the serial port's interrupt adds to the input.
unfoldable pub rx_interrupt : {W : Type 0} → ℕ → Handler W → Handler W
rx_interrupt b h = record h {
  comm = record h.comm { port = record h.comm.port { input = h.comm.port.input ++ b ∷ [] } };
}

-- `!action_performed`
unfoldable pub nothing_done : {W : Type 0} → Handler W → Bool
nothing_done h = h.action_performed == 0

module _ (bus : Bus) (locals : Locals) where
  open bus use {World}

  -- A pass of the inner loop of `main` up to its `sleep_on`; `none` if the handler does not return.
  unfoldable pub main_pass : ℕ → Handler World → Option (Cpu (Handler World) ℕ)
  main_pass fuel h = elim (communication_handler bus locals fuel h) [
    | none ↦ none
    | some r ↦ (elim r [
      | returns h' ↦ some (entered rx_interrupt nothing_done h' true [])
      | continues h' ↦ none
      | waits ↦ none
      | overflows ↦ none
    ])
  ]

  -- A byte for an idle master that comes in behind the handler's question for input and in front of
  -- the `cli` of `sleep_on`: the master goes to sleep with the byte in its input and no interrupt
  -- pending, since the condition is about what the handler did and not about the input.
  pub main_loop_sleeps :
      (fuel g : ℕ) (world : World) (output : List ℕ) (rx : Packet) (error : ComError)
      (performed b : ℕ)
      → let idle : Handler World = record {
        state = receiving;
        comm = record {
          global_id = g;
          port = record { input = []; output = output };
          world = world;
        };
        rx = rx;
        error = error;
        action_performed = performed;
      } in
        (first last : Cpu (Handler World) ℕ) × (main_pass (suc fuel) idle ≡ some first)
        × Reach rx_interrupt nothing_done false first last
        × (last.place ≡ asleep)
        × (last.memory.comm.port.input ≡ b ∷ [])
        × (last.pending ≡ [])
  unfolding main_pass communication_handler rounds round instruction rx_interrupt nothing_done woken
  main_loop_sleeps fuel g world output rx error performed b =
      let quiet : Handler World = record {
        state = receiving;
        comm = record {
          global_id = g;
          port = record { input = []; output = output };
          world = world;
        };
        rx = locals.packet;
        error = success;
        action_performed = 0;
      } in
      let first : Cpu (Handler World) ℕ = entered rx_interrupt nothing_done quiet true [] in
      (
        first,
        _,
        refl,
        later
            (later
              (later
                (later
                  (later (later (later start (arrive b)) (serve b [] refl refl)) (execute refl))
                  (execute refl))
                (execute refl))
              (execute refl))
            (execute refl),
        refl,
        refl,
        refl,
      )
