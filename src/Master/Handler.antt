-- ===== src/Master/Handler.antt =====
-- `communication_handler` of master/source/communication.c: the loop over the states of the
-- communication with the client.
pub mod Keeps
pub mod Steps
pub mod Runs
pub mod Rejects
pub mod Stalls
mod Tests
use ammc.Base.{
  ℕ, zero, suc, Bool, true, false, not, Option, none, some, List, length, get_or, ◌==◌,
  if◌then◌else◌,
}
use ammc.Bus.{Bus}
use ammc.Packet.{Packet, com_type, hnd, ack, nak}
use ammc.ComError.{ComError, success, error_code}
use ammc.Port.{Port}
use ammc.Master.Comm.{Received, done, blocked, overflow, recv, next_id, is_success}
use ammc.Master.Operations.{Locals, Comm, reply, operation_table}

-- `state_t`
pub data State : Type 0 where
  receiving shaking acking naking executing : State

-- The state that a number stands for; the operations return 0.
abbrev pub state_of : ℕ → State
state_of zero = receiving
state_of (suc zero) = shaking
state_of (suc (suc zero)) = acking
state_of (suc (suc (suc zero))) = naking
state_of _ = executing

-- The static and local variables of the handler.
pub record Handler (World : Type 0) : Type 0 where
  pub state : State
  pub comm : Comm World
  pub rx : Packet
  pub error : ComError
  pub action_performed : ℕ

-- What a round of the loop does: return, go on, wait for bytes for ever, or write out of bounds.
pub data Round (World : Type 0) : Type 0 where
  returns : Handler World → Round World
  continues : Handler World → Round World
  waits overflows : Round World

module _ (bus : Bus) (locals : Locals) where
  open bus use {World}

  -- The branch of `STATE_RECEIVING` behind the call of `communication_recv`.
  unfoldable pub after_recv : Handler World → Received → Round World
  after_recv h blocked = waits
  after_recv h overflow = overflows
  after_recv h (done error rx port) = continues (record h {
    comm = record h.comm { port = port };
    rx = rx;
    error = error;
    action_performed = 1;
    state =
        if not (is_success error)
        then naking
        else if rx.type == com_type hnd
        then shaking
        else acking;
  })

  unfoldable pub run_operation :
      Handler World → Option (Comm World → Packet → Comm World × ℕ) → Handler World
  run_operation h none = record h { state = receiving }
  run_operation h (some action) =
      let (comm, next) = action h.comm h.rx in record h { comm = comm; state = state_of next }

  -- One round of the loop, in each state. `serial_rx_available` is asked before a packet is read.
  unfoldable pub round : State → Handler World → Round World
  round receiving h =
      if length h.comm.port.input == 0
      then returns h
      else after_recv h (recv h.comm.global_id h.comm.port h.rx)
  round shaking h = continues (record h { comm = record h.comm { global_id = 0 }; state = acking })
  round acking h =
      let comm = reply bus locals h.comm (com_type ack) 0 0 none in
      continues
        (record h { comm = record comm { global_id = next_id comm.global_id }; state = executing })
  round naking h =
      let comm = reply bus locals h.comm (com_type nak) (error_code h.error) 0 none in
      continues (record h { comm = record comm { global_id = 0 }; state = receiving })
  round executing h =
      continues (run_operation h (get_or (operation_table bus locals) h.rx.type none))

  -- The loop, `fuel` rounds at most; `none` when they are used up.
  unfoldable pub rounds : ℕ → Handler World → Option (Round World)
  rounds zero h = none
  rounds (suc fuel) h = elim (round h.state h) [
    | returns h' ↦ some (returns h')
    | continues h' ↦ rounds fuel h'
    | waits ↦ some waits
    | overflows ↦ some overflows
  ]

  -- `communication_handler`: the static state stays, the locals start afresh.
  unfoldable pub communication_handler : ℕ → Handler World → Option (Round World)
  communication_handler fuel h =
      rounds fuel (record h { rx = locals.packet; error = success; action_performed = 0 })
