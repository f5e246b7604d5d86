-- ===== src/Packet.antt =====
-- include/common/packet.h, client/source/packet.c and master/source/packet.c. Pointers to packets
-- are never null here: every caller passes the address of an object. A body pointer may be.
pub mod Frame
pub mod Errors
pub mod Dump
mod Tests
use ammc.Base.{
  ℕ, ◌+◌, ◌-◌, ◌%◌, Bool, true, false, not, ◌&&◌, ◌||◌, Option, none, some, List, ◌∷◌, take, set,
  overlay, ltb, leb, ◌==◌, if◌then◌else◌, u8,
}
use ammc.Crc.{crc, crc_check}

-- `packet_t`. The array `header` holds the four named bytes; `body` has 33 bytes, the checksum's
-- place included.
pub record Packet : Type 0 where
  pub id : ℕ
  pub type : ℕ
  pub selector : ℕ
  pub size : ℕ
  pub body : List ℕ

abbrev pub body_max_len : ℕ
body_max_len = 32

abbrev pub sizeof_header : ℕ
sizeof_header = 4

abbrev pub sizeof_crc : ℕ
sizeof_crc = 1

abbrev pub packet_min_size : ℕ
packet_min_size = sizeof_header + sizeof_crc

abbrev pub sizeof_packet : ℕ
sizeof_packet = sizeof_header + body_max_len + sizeof_crc

-- `com_type_t`
pub data ComType : Type 0 where
  null hnd ack nak echo ping get_speed set_speed apply dat set_slave_addr limit : ComType

-- The value of each enumerator.
abbrev pub com_type : ComType → ℕ
com_type null = 0
com_type hnd = 1
com_type ack = 2
com_type nak = 3
com_type echo = 4
com_type ping = 5
com_type get_speed = 6
com_type set_speed = 7
com_type apply = 8
com_type dat = 9
com_type set_slave_addr = 10
com_type limit = 11

-- The packet as the bytes in memory.
abbrev pub raw : Packet → List ℕ
raw p = p.id ∷ p.type ∷ p.selector ∷ p.size ∷ p.body

-- `packet_get_body_size`: the difference is cut to a byte.
abbrev pub get_body_size : Packet → ℕ
get_body_size p = u8 (p.size + 256 - sizeof_header - sizeof_crc)

-- `packet_header`
abbrev pub packet_header : Packet → ℕ → ℕ → ℕ → ℕ → Packet
packet_header p id type selector size = record p {
  id = id;
  type = type;
  selector = selector;
  size = size;
}

abbrev pub is_null {ℓ} : {A : Type ℓ} → Option A → Bool
is_null none = true
is_null (some _) = false

-- `if (body) memcpy(p->body, body, body_size)`
abbrev pub copy_body : Packet → Option (List ℕ) → ℕ → Packet
copy_body p none body_size = p
copy_body p (some body) body_size = record p { body = overlay p.body (take body_size body) }

-- Compute and attach the checksum.
unfoldable pub attach_crc : Packet → ℕ → Packet
attach_crc p body_size = record p {
  body = set p.body body_size (crc (raw p) (p.size - sizeof_crc));
}

-- `packet_craft` of the client: the returned code, and what `*p` is then.
unfoldable pub craft : Packet → ℕ → ℕ → ℕ → Option (List ℕ) → ℕ → ℕ × Packet
craft p id type selector body body_size =
    if ltb body_max_len body_size
      || is_null body && not (body_size == 0)
      || leb (com_type limit) type
    then (1, p)
    else let size = u8 (sizeof_header + body_size + sizeof_crc) in
      let q = copy_body (packet_header p id type selector size) body body_size in
      (0, attach_crc q body_size)

-- `packet_craft` of the master, with its last two arguments the other way round.
unfoldable pub master_craft : Packet → ℕ → ℕ → ℕ → ℕ → Option (List ℕ) → ℕ × Packet
master_craft p id type selector body_size body =
    if ltb body_max_len body_size
      || is_null body && not (body_size == 0)
      || leb (com_type limit) type
    then (1, p)
    else let size = u8 (sizeof_header + body_size + sizeof_crc) in
      let q = copy_body (packet_header p id type selector size) body body_size in
      (0, attach_crc q body_size)

-- `packet_check_crc`
unfoldable pub check_crc : Packet → ℕ
check_crc p = if not (crc_check (raw p) p.size == 0) then 1 else 0

-- `packet_ack` and `packet_nak`
unfoldable pub craft_ack : Packet → Packet → ℕ × Packet
craft_ack p response = craft response p.id (com_type ack) 0 none 0

unfoldable pub craft_nak : Packet → Packet → ℕ × Packet
craft_nak p response = craft response p.id (com_type nak) 0 none 0
