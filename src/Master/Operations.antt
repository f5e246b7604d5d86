-- ===== src/Master/Operations.antt =====
-- master/source/communication_ops.c: what the master does for each type of packet.
pub mod Replies
use ammc.Base.{
  ℕ, ◌*◌, ◌/◌, ◌-◌, ◌^◌, bit_and, ◌&&◌, ◌||◌, Option, none, some, List, [], ◌∷◌, length, take,
  get_or, ltb, ◌==◌, if◌then◌else◌, u8,
}
use ammc.Bus.{Bus}
use ammc.Packet.{Packet, get_body_size, com_type, dat}
use ammc.ComError.{error_code, success, slave_not_found}
use ammc.Port.{Port}
use ammc.Master.Comm.{send}
use ammc.Master.Commands.{
  Stack, command_id, ping, send_command, recv_response, dcmotor_get, dcmotor_set, dcmotor_apply,
  dcmotor_change_id,
}

-- `DC_MOTOR_SEL_ALL`, in `int` arithmetic
abbrev pub dc_motor_num : ℕ
dc_motor_num = 4

abbrev pub dc_motor_sel_all : ℕ
dc_motor_sel_all = 0xff * 2 ^ (8 - dc_motor_num) / 2 ^ (8 - dc_motor_num)

-- The local variables, before they are written.
pub record Locals : Type 0 where
  pub packet : Packet
  pub stack : Stack
  pub response : ℕ

-- What the communication module of the master keeps, with the port and the bus that it uses.
pub record Comm (World : Type 0) : Type 0 where
  pub global_id : ℕ
  pub port : Port
  pub world : World

module _ (bus : Bus) (locals : Locals) where
  open bus use {World}
  open locals use {stack, response, packet}

  -- `communication_send` on the module's state
  unfoldable pub reply : Comm World → ℕ → ℕ → ℕ → Option (List ℕ) → Comm World
  reply m type selector body_size body = record m {
    port = send packet m.port m.global_id type selector body_size body;
  }

  -- The operations return 0, the number of the receiving state.
  unfoldable pub op_echo : Comm World → Packet → Comm World × ℕ
  op_echo m p = (reply m (com_type dat) 0 (get_body_size p) (some p.body), 0)

  unfoldable pub op_ping : Comm World → Packet → Comm World × ℕ
  op_ping m p =
      let slave_id = p.selector in
      let w = send_command bus stack m.world slave_id (command_id ping) (some (slave_id ∷ [])) 1 in
      let (bytes, w') = recv_response bus stack w slave_id 1 in
      let recvd = u8 (length bytes) in
      let answer = get_or bytes 0 response in
      let err_code =
        if recvd == 1 && answer == slave_id
        then error_code success
        else error_code slave_not_found in
      if slave_id == 0 || ltb 127 slave_id
      then (reply m (com_type dat) (error_code slave_not_found) 0 none, 0)
      else (reply (record m { world = w' }) (com_type dat) err_code 0 none, 0)

  unfoldable pub op_get_speed : Comm World → Packet → Comm World × ℕ
  op_get_speed m p =
      let motor_id = bit_and p.selector dc_motor_sel_all in
      let (speed, w) = dcmotor_get bus stack m.world motor_id in
      (reply (record m { world = w }) (com_type dat) motor_id 2 (some speed), 0)

  unfoldable pub op_set_speed : Comm World → Packet → Comm World × ℕ
  op_set_speed m p =
      let dc_motor_id = bit_and p.selector dc_motor_sel_all in
      (record m { world = dcmotor_set bus stack m.world dc_motor_id (take 2 p.body) }, 0)

  unfoldable pub op_apply : Comm World → Packet → Comm World × ℕ
  op_apply m p = (record m { world = dcmotor_apply bus stack m.world }, 0)

  unfoldable pub op_set_slave_addr : Comm World → Packet → Comm World × ℕ
  op_set_slave_addr m p =
      (record m { world = dcmotor_change_id bus stack m.world p.selector (get_or p.body 0 0) }, 0)

  -- `com_operation_table`
  unfoldable pub operation_table : List (Option (Comm World → Packet → Comm World × ℕ))
  operation_table =
      none
      ∷ none
      ∷ none
      ∷ none
      ∷ some op_echo
      ∷ some op_ping
      ∷ some op_get_speed
      ∷ some op_set_speed
      ∷ some op_apply
      ∷ none
      ∷ some op_set_slave_addr
      ∷ []
