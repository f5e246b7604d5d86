-- ===== src/Master/Comm.antt =====
-- master/source/communication.c: the packet exchange with the client over the serial port.
pub mod Receive
pub mod Frames
pub mod Mismatch
pub mod Send
mod Tests
use ammc.Base.{
  ℕ, ◌+◌, ◌-◌, ◌%◌, ◌/◌, ◌^◌, bit_and, Bool, true, false, not, ◌&&◌, ◌||◌, Option, none, some, List,
  [], ◌∷◌, length, ltb, leb, ◌==◌, get_or, overlay, if◌then◌else◌, u8,
}
use ammc.Crc.{crc_check}
use ammc.Packet.{
  Packet, raw, master_craft, com_type, limit, hnd, sizeof_header, sizeof_crc, body_max_len,
}
use ammc.ComError.{ComError, success, id_mismatch, corrupted_checksum, wrong_type, too_big}
use ammc.Port
use ammc.Port.{Port}

-- `packet_global_id_increment`
unfoldable pub next_id : ℕ → ℕ
next_id id = (id + 1) % 0xff

-- `communication_send`, over the packet that lies on the stack
unfoldable pub send : Packet → Port → ℕ → ℕ → ℕ → ℕ → Option (List ℕ) → Port
send stack port global_id type selector body_size body =
    let (_, p) = master_craft stack global_id type selector body_size body in
    (Port.write port (raw p) p.size).1

-- `packet_header_sanity`
unfoldable pub header_sanity : ℕ → Packet → ComError
header_sanity global_id p =
    if not (p.id == global_id) && (not (p.type == com_type hnd) || not (p.id == 0))
    then id_mismatch
    else if ltb (sizeof_header + body_max_len + sizeof_crc) p.size
    then too_big
    else success

-- `packet_sanity`
unfoldable pub packet_sanity : Packet → ComError
packet_sanity p =
    if leb (com_type limit) p.type
    then wrong_type
    else if not (crc_check (raw p) p.size == 0)
    then corrupted_checksum
    else success

-- How `communication_recv` ends: with an error code (or success) and the packet; still waiting for
-- bytes; or writing behind the packet's array.
pub data Received : Type 0 where
  done : ComError → Packet → Port → Received
  blocked overflow : Received

-- `recv_packet_header`: four bytes over the header.
abbrev pub store_header : Packet → List ℕ → Packet
store_header p bs = record p {
  id = get_or bs 0 p.id;
  type = get_or bs 1 p.type;
  selector = get_or bs 2 p.selector;
  size = get_or bs 3 p.size;
}

-- The size that `recv_packet_body` asks for, a byte.
abbrev pub rx_body_size : Packet → ℕ
rx_body_size p = u8 (p.size + 256 - sizeof_header)

-- `recv_packet_body` and the checks behind it. With more than 33 bytes to read the loop of
-- `serial_rx` writes past the packet when the byte behind the first 33 has come.
unfoldable pub recv_body : Port → Packet → Received
recv_body port rx =
    if ltb (body_max_len + sizeof_crc) (rx_body_size rx)
      && ltb (body_max_len + sizeof_crc) (length port.input)
    then overflow
    else elim (Port.read port (rx_body_size rx)) [
      | none ↦ blocked
      | some (bs, port') ↦
          let rx' = record rx { body = overlay rx.body bs } in done (packet_sanity rx') rx' port'
    ]

unfoldable pub is_success : ComError → Bool
is_success success = true
is_success _ = false

-- `communication_recv`
unfoldable pub recv : ℕ → Port → Packet → Received
recv global_id port rx = elim (Port.read port sizeof_header) [
  | none ↦ blocked
  | some (bs, port') ↦
      let rx' = store_header rx bs in
      let sanity = header_sanity global_id rx' in
      if is_success sanity then recv_body port' rx' else done sanity rx' port'
]

-- `_count_bits`, with the shift as the source has it; a byte of counts.
abbrev pub nibble_bits : List ℕ
nibble_bits = 0 ∷ 1 ∷ 1 ∷ 2 ∷ 1 ∷ 2 ∷ 2 ∷ 3 ∷ 1 ∷ 2 ∷ 2 ∷ 3 ∷ 2 ∷ 3 ∷ 3 ∷ 4 ∷ []

unfoldable pub count_bits : List ℕ → ℕ → ℕ
count_bits [] count = count
count_bits (b ∷ bs) count =
    count_bits bs
      (u8 (count + get_or nibble_bits (bit_and b 0x0f) 0 + get_or nibble_bits (b / 2 ^ 0x0f) 0))
