-- ===== src/Client/Comm.antt =====
-- client/source/communication.c, and what it uses of client/source/serial.c. Pointers to packets
-- are not null, and the descriptor is not 0. What is at the other end of the serial line is a parameter: it takes the
-- bytes that are sent to it and answers with bytes, which the client can then read.
pub mod Answers
mod Tests
use ammc.Base.{
  ℕ, ◌+◌, ◌-◌, ◌%◌, ◌^◌, not, ◌&&◌, ◌||◌, Option, none, List, [], ◌++◌, length, take, drop, overlay,
  ltb, ◌==◌, if◌then◌else◌, Bool, true, false,
}
use ammc.Packet.{
  Packet, raw, craft, check_crc, craft_ack, craft_nak, com_type, hnd, ack, sizeof_header,
  sizeof_packet, packet_min_size, body_max_len, sizeof_crc,
}
use ammc.ComError.{ComError, success, id_mismatch, corrupted_checksum}
use ammc.Master.Comm.{store_header, is_success}

pub record Line : Type 1 where
  pub World : Type 0
  pub exchange : World → List ℕ → World × List ℕ

-- `packet_global_id`, whether the descriptor is that of a terminal (`valid_dev`), the bytes that can
-- be read, and the other end.
pub record Comm (World : Type 0) : Type 0 where
  pub tty : Bool
  pub global_id : ℕ
  pub input : List ℕ
  pub world : World

-- `packet_next_id`
unfoldable pub packet_next_id : ℕ → ℕ
packet_next_id current = (current + 1) % 0xff

-- How a function that reads from the line ends: with a result, waiting for bytes, writing behind
-- a packet's array, or in a call of `read` with a count that POSIX leaves to the implementation.
pub data Outcome {ℓ} (A : Type ℓ) : Type ℓ where
  done : A → Outcome A
  blocked overflow unspecified : Outcome A

infixl 5 ◌>>=◌
abbrev pub ◌>>=◌ {ℓ κ} : {A : Type ℓ} {B : Type κ} → Outcome A → (A → Outcome B) → Outcome B
done a >>= f = f a
blocked >>= f = blocked
overflow >>= f = overflow
unspecified >>= f = unspecified

-- `size - sizeof(header_t)` in `size_t`
abbrev pub rest_size : ℕ → ℕ
rest_size size = (size + 2 ^ 64 - sizeof_header) % 2 ^ 64

-- `SSIZE_MAX`
abbrev pub ssize_max : ℕ
ssize_max = 2 ^ 63 - 1

module _ (line : Line) where
  open line use {World, exchange}

  -- `serial_rx` of `n` bytes; nothing is read from what is no terminal.
  unfoldable pub serial_rx : Comm World → ℕ → Outcome (List ℕ × Comm World)
  serial_rx c n =
      if not c.tty
      then done ([], c)
      else if ltb (length c.input) n
      then blocked
      else done (take n c.input, record c { input = drop n c.input })

  -- `serial_tx`
  unfoldable pub serial_tx : Comm World → List ℕ → Comm World
  serial_tx c bytes =
      let (world, answer) = exchange c.world bytes in
      if not c.tty then c else record c { world = world; input = c.input ++ answer }

  -- `_recv_attempt` behind the id check. With more than 33 bytes to read, `serial_rx` writes past
  -- the packet when the byte behind the first 33 has come.
  unfoldable pub recv_rest : Comm World → Packet → Outcome (ComError × Packet × Comm World)
  recv_rest c p =
      if c.tty && ltb ssize_max (rest_size p.size)
      then unspecified
      else if c.tty
          && ltb (body_max_len + sizeof_crc) (rest_size p.size)
          && ltb (body_max_len + sizeof_crc) (length c.input)
      then overflow
      else (serial_rx c (rest_size p.size) >>= λ (bytes, c').
          let q = record p { body = overlay p.body bytes } in
          done (if not (check_crc q == 0) then corrupted_checksum else success, q, c'))

  -- `_recv_attempt`: the error code, and what `*p` is then.
  unfoldable pub recv_attempt : Comm World → Packet → Outcome (ComError × Packet × Comm World)
  recv_attempt c p = serial_rx c sizeof_header >>= λ (header, c').
      let q = store_header p header in
      if not (q.id == c.global_id) then done (id_mismatch, q, c') else recv_rest c' q

  -- `_transmit_packet`: what was not read is dropped first.
  unfoldable pub transmit_packet : Comm World → Packet → Comm World
  transmit_packet c p = serial_tx (record c { input = [] }) (take p.size (raw p))

  -- `communication_send`, over the response packet that lies on the stack.
  unfoldable pub send : Packet → Comm World → Packet → Outcome (ℕ × Comm World)
  send stack c p =
      if p.size == 0 || ltb sizeof_packet p.size
      then done (1, c)
      else (recv_attempt (transmit_packet c p) stack >>= λ (error, response, c'). done (
          if is_success error && response.type == com_type ack
          then (0, record c' { global_id = packet_next_id c'.global_id })
          else (1, record c' { global_id = 0 })))

  -- `communication_recv`: the code, the packet and the state.
  unfoldable pub recv : Packet → Comm World → Packet → Outcome (ℕ × Packet × Comm World)
  recv stack c p = recv_attempt c p >>= λ (error, q, c'). done (
      if is_success error
      then (
        0,
        q,
        record (serial_tx c' (take packet_min_size (raw (craft_ack q stack).1))) {
          global_id = packet_next_id c'.global_id;
        },
      )
      else (1, q, serial_tx c' (take packet_min_size (raw (craft_nak q stack).1))))

  -- `communication_craft_and_send`, over the packet and the response on the stack.
  unfoldable pub craft_and_send :
      Packet → Comm World → ℕ → ℕ → Option (List ℕ) → ℕ → Outcome (ℕ × Comm World)
  craft_and_send stack c type selector body body_size =
      let (code, p) = craft stack c.global_id type selector body body_size in
      if not (code == 0) then done (1, c) else send stack c p

  -- `communication_connect`
  unfoldable pub connect : Packet → Comm World → Outcome (ℕ × Comm World)
  connect stack c = craft_and_send stack (record c { global_id = 0 }) (com_type hnd) 0 none 0
