-- ===== src/Master/Commands.antt =====
-- master/source/master_commands.c and master/source/dcmotor.c: commands to the slaves.
use ammc.Base.{ℕ, ◌+◌, Option, none, some, List, [], ◌∷◌, take, overlay}
use ammc.Bus.{Bus}

abbrev pub command_arg_max_size : ℕ
command_arg_max_size = 15

-- `master_command_t`, 1 + 15 bytes
pub record Command : Type 0 where
  pub id : ℕ
  pub argument : List ℕ

-- `master_command_id_t`
pub data CommandId : Type 0 where
  get_speed set_speed apply_speed ping set_addr : CommandId

abbrev pub command_id : CommandId → ℕ
command_id get_speed = 0
command_id set_speed = 1
command_id apply_speed = 2
command_id ping = 3
command_id set_addr = 4

-- `prepare_command`
unfoldable pub prepare_command : Command → ℕ → Option (List ℕ) → ℕ → Command
prepare_command command id none arg_size = record command { id = id }
prepare_command command id (some arg) arg_size = record {
  id = id;
  argument = overlay command.argument (take arg_size arg);
}

-- The local variables of the functions below, before they are written.
pub record Stack : Type 0 where
  pub command : Command
  pub speed : List ℕ

-- The first `size` bytes of a command in memory.
abbrev pub command_bytes : Command → ℕ → List ℕ
command_bytes c size = take size (c.id ∷ c.argument)

module _ (bus : Bus) (stack : Stack) where
  open bus use {World, send, recv}

  -- `master_send_command`, `master_send_bcast_command`, `master_recv_response`
  unfoldable pub send_command : World → ℕ → ℕ → Option (List ℕ) → ℕ → World
  send_command w slave_id id arg arg_size =
      send w slave_id (command_bytes (prepare_command stack.command id arg arg_size) (1 + arg_size))

  unfoldable pub send_bcast_command : World → ℕ → Option (List ℕ) → ℕ → World
  send_bcast_command w id arg arg_size =
      send w 0 (command_bytes (prepare_command stack.command id arg arg_size) (1 + arg_size))

  unfoldable pub recv_response : World → ℕ → ℕ → List ℕ × World
  recv_response w slave_id size = recv w slave_id size

  -- `dcmotor_get`: a speed is its two bytes. What was not received stays as it was.
  unfoldable pub dcmotor_get : World → ℕ → List ℕ × World
  dcmotor_get w slave_addr =
      let w' = send_command w slave_addr (command_id get_speed) none 0 in
      let (bytes, w'') = recv_response w' slave_addr 2 in (overlay stack.speed bytes, w'')

  -- `dcmotor_set`, `dcmotor_apply`, `dcmotor_change_id`
  unfoldable pub dcmotor_set : World → ℕ → List ℕ → World
  dcmotor_set w slave_addr speed = send_command w slave_addr (command_id set_speed) (some speed) 2

  unfoldable pub dcmotor_apply : World → World
  dcmotor_apply w = send_bcast_command w (command_id apply_speed) none 0

  unfoldable pub dcmotor_change_id : World → ℕ → ℕ → World
  dcmotor_change_id w actual_addr new_addr =
      send_command w actual_addr (command_id set_addr) (some (new_addr ∷ [])) 1
