-- ===== src/Packet/Dump.antt =====
-- client/source/packet.c: the dump of a packet, in builds with DEBUG.
use ammc.Base.{
  ℕ, suc, ◌+◌, ◌-◌, ◌≤◌, ◌≡◌, refl, ap, ◌∙◌, false, ◌||◌, Option, none, some, List, [], ◌∷◌, length,
  length-append, take, drop, get_or, get_or-append, leb, ltb, ◌==◌, if◌then◌else◌, arith,
}
use ammc.Crc.{crc}
use ammc.Packet.Frame.{message, frame, crafted, wire-crafted}
use ammc.Packet.{Packet, com_type, limit, raw, sizeof_header}

-- A name of a type, by its value in `com_type_t`.
abbrev pub type_str : List (List ℕ)
type_str =
    (b'N' ∷ b'U' ∷ b'L' ∷ b'L' ∷ [])
    ∷ (b'H' ∷ b'N' ∷ b'D' ∷ [])
    ∷ (b'A' ∷ b'C' ∷ b'K' ∷ [])
    ∷ (b'N' ∷ b'A' ∷ b'K' ∷ [])
    ∷ (b'E' ∷ b'C' ∷ b'H' ∷ b'O' ∷ [])
    ∷ (b'P' ∷ b'I' ∷ b'N' ∷ b'G' ∷ [])
    ∷ (b'G' ∷ b'E' ∷ b'T' ∷ b'_' ∷ b'S' ∷ b'P' ∷ b'E' ∷ b'E' ∷ b'D' ∷ [])
    ∷ (b'S' ∷ b'E' ∷ b'T' ∷ b'_' ∷ b'S' ∷ b'P' ∷ b'E' ∷ b'E' ∷ b'D' ∷ [])
    ∷ (b'A' ∷ b'P' ∷ b'P' ∷ b'L' ∷ b'Y' ∷ [])
    ∷ (b'D' ∷ b'A' ∷ b'T' ∷ [])
    ∷ (b'S' ∷ b'E' ∷ b'T' ∷ b'_' ∷ b'S' ∷ b'L' ∷ b'A' ∷ b'V' ∷ b'E' ∷ b'_' ∷ b'A' ∷ b'D' ∷ b'D'
        ∷ b'R' ∷ [])
    ∷ []

abbrev pub unknown_type : List ℕ
unknown_type = b'U' ∷ b'N' ∷ b'K' ∷ b'N' ∷ b'O' ∷ b'W' ∷ b'N' ∷ []

-- What is printed: that the pointer is null, the size of a header, the fields of the packet, and its
-- bytes.
pub data Dumped : Type 0 where
  null_pointer : Dumped
  header_size : (size : ℕ) → Dumped
  fields : (id : ℕ) (type_name : List ℕ) (selector size crc : ℕ) → Dumped
  raw_data : (bytes : List ℕ) → Dumped

unfoldable pub type_name : ℕ → List ℕ
type_name type = if leb (com_type limit) type then unknown_type else get_or type_str type []

-- `packet_print`; `none` for a byte read out of the packet's bounds.
unfoldable pub packet_print : Option Packet → Option (List Dumped)
packet_print none = some (null_pointer ∷ [])
packet_print (some p) =
    if p.size == 0 || ltb (length (raw p)) p.size
    then none
    else some (
        header_size sizeof_header
        ∷ fields p.id (type_name p.type) p.selector p.size (get_or (raw p) (p.size - 1) 0)
        ∷ raw_data (take p.size (raw p))
        ∷ [])

-- The dump of a packet that was crafted shows its fields, with the name of a known type, its
-- checksum, and the bytes that it has on the wire.
packet_print-crafted :
    (p : Packet) (id type selector : ℕ) (body : List ℕ)
    → length p.body ≡ 33
    → length body ≤ 32
    → let sent = message id type selector body in
      let checksum = crc sent (length sent) in
      packet_print (some (crafted p id type selector body))
      ≡ some (
          header_size 4
          ∷ fields id (type_name type) selector (5 + length body) checksum
          ∷ raw_data (frame id type selector body)
          ∷ [])
unfolding packet_print
packet_print-crafted p id type selector body room fits =
    let sent = message id type selector body in
    let q = crafted p id type selector body in
    let rest = drop (suc (length body)) p.body in
    let long = length-append {0} body (crc sent (length sent) ∷ rest) in
    let inside : (q.size == 0 || ltb (length (raw q)) q.size) ≡ false = ground (arith, long) in
    let before : q.size - 1 ≡ length sent = omega arith in
    let last : get_or (raw q) (q.size - 1) 0 ≡ crc sent (length sent) =
      ap (λ n. get_or (raw q) n 0) before ∙ get_or-append sent rest (crc sent (length sent)) 0 in
    rw (inside, last, wire-crafted p id type selector body) refl
