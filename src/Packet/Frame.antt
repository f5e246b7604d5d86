-- ===== src/Packet/Frame.antt =====
-- The bytes that a crafted packet puts on the wire.
use ammc.Base.{
  ℕ, zero, suc, ◌+◌, ◌-◌, ◌≤◌, ◌<◌, ◌≡◌, refl, sym, ap, ◌∙◌, Option, none, some, List, [], ◌∷◌,
  ◌++◌, length, take, drop, set, overlay-append-drop, set-append, take_all, take-append, IsBytes,
  arith,
}
use ammc.Crc.{crc, crc_check, division_rounds}
use ammc.Crc.Append.{crc_check_iff, take-append_cons}
use ammc.Crc.Detect.{division_rounds-lt}
use ammc.Packet.{Packet, raw, attach_crc, craft, master_craft, check_crc, com_type, limit}

-- The header and the body, without the checksum.
abbrev pub message : ℕ → ℕ → ℕ → List ℕ → List ℕ
message id type selector body = id ∷ type ∷ selector ∷ (5 + length body) ∷ body

-- The whole packet: the message, and its checksum.
abbrev pub frame : ℕ → ℕ → ℕ → List ℕ → List ℕ
frame id type selector body =
    message id type selector body
    ++ crc (message id type selector body) (length (message id type selector body)) ∷ []

-- The bytes of the packet that its size field counts.
abbrev pub wire : Packet → List ℕ
wire p = take p.size (raw p)

-- What a body pointer and a size denote.
abbrev pub bytes_of : Option (List ℕ) → List ℕ
bytes_of none = []
bytes_of (some body) = body

-- The packet that `packet_craft` leaves in `*p`.
abbrev pub crafted : Packet → ℕ → ℕ → ℕ → List ℕ → Packet
crafted p id type selector body = record p {
  id = id;
  type = type;
  selector = selector;
  size = 5 + length body;
  body =
      body
      ++ crc (message id type selector body) (length (message id type selector body))
        ∷ drop (suc (length body)) p.body;
}

set-drop : (n v : ℕ) (ys : List ℕ) → n < length ys → set (drop n ys) 0 v ≡ v ∷ drop (suc n) ys
set-drop n v [] h = absurd (omega arith)
set-drop zero v (y ∷ ys) h = refl
set-drop (suc n) v (y ∷ ys) h = set-drop n v ys (omega arith)

-- The size field in the form by which lists are taken apart.
size-eq : (n : ℕ) → 5 + n ≡ suc (suc (suc (suc (suc n))))
size-eq n = omega arith

-- Bytes behind the counted ones do not change a checksum.
crc_prefix : (xs ys : List ℕ) → crc (xs ++ ys) (length xs) ≡ crc xs (length xs)
unfolding crc
crc_prefix xs ys = ap (division_rounds 0) (take-append xs ys ∙ sym (take_all _ xs (omega arith)))

pub crc-lt : (xs : List ℕ) → IsBytes xs → crc xs (length xs) < 256
unfolding crc
crc-lt xs h = rw (take_all (length xs) xs (omega arith)) (division_rounds-lt 0 xs (omega arith) h)

module _ (p : Packet) (id type selector : ℕ) (room : length p.body ≡ 33) where
  copied : List ℕ → Packet
  copied body = record p {
    id = id;
    type = type;
    selector = selector;
    size = 5 + length body;
    body = body ++ drop (length body) p.body;
  }

  attached :
      (body : List ℕ)
      → length body ≤ 32
      → attach_crc (copied body) (length body) ≡ crafted p id type selector body
  unfolding attach_crc copied
  attached body fits =
      rw
        (
          set-append body (drop (length body) p.body),
          set-drop (length body) _ p.body (omega arith),
          crc_size,
        )
        (ap
          (λ t. record (crafted p id type selector body) {
            body = body ++ t ∷ drop (suc (length body)) p.body;
          })
          (crc_prefix (message id type selector body) (drop (length body) p.body)))
    where
      crc_size : 5 + length body - 1 ≡ length (message id type selector body)
      crc_size = omega arith

  -- A body pointer with a size that it covers, as every caller passes it.
  craft-some :
      (body : List ℕ)
      → length body ≤ 32
      → type < com_type limit
      → craft p id type selector (some body) (length body) ≡ (0, crafted p id type selector body)
  unfolding craft copied
  craft-some body fits sane = ground (
    arith,
    take_all (length body) body (omega arith),
    overlay-append-drop p.body body (omega arith),
    attached body fits,
  )

  craft-none :
      type < com_type limit → craft p id type selector none 0 ≡ (0, crafted p id type selector [])
  unfolding craft copied
  craft-none sane = ground (arith, attached [] (omega arith))

-- `packet_craft` with a body of at most 32 bytes (or without one) and a known type returns 0 and
-- leaves the header, the body, its checksum and the untouched rest in `*p`.
pub craft_lem :
    (p : Packet) (id type selector : ℕ) (body : Option (List ℕ))
    → length p.body ≡ 33
    → length (bytes_of body) ≤ 32
    → type < com_type limit
    → craft p id type selector body (length (bytes_of body))
      ≡ (0, crafted p id type selector (bytes_of body))
craft_lem p id type selector none room fits sane = craft-none p id type selector room sane
craft_lem p id type selector (some body) room fits sane =
    craft-some p id type selector room body fits sane

pub wire-crafted :
    (p : Packet) (id type selector : ℕ) (body : List ℕ)
    → wire (crafted p id type selector body) ≡ frame id type selector body
wire-crafted p id type selector body =
    ap (λ n. take n (raw (crafted p id type selector body))) (size-eq (length body))
    ∙ take-append_cons (message id type selector body) (drop (suc (length body)) p.body) _

-- `packet_craft` of a body of at most 32 bytes (or none) and a known type, in an array of 33 bytes,
-- returns 0, and the bytes of `*p` that its size field counts are the frame of the request: header,
-- body and checksum.
pub wire-craft :
    (p : Packet) (id type selector : ℕ) (body : Option (List ℕ))
    → length p.body ≡ 33
    → length (bytes_of body) ≤ 32
    → type < com_type limit
    → let (code, q) = craft p id type selector body (length (bytes_of body)) in
      (code ≡ 0) × (wire q ≡ frame id type selector (bytes_of body))
wire-craft p id type selector body room fits sane =
    rw (craft_lem p id type selector body room fits sane)
      (refl, wire-crafted p id type selector (bytes_of body))

-- The two programs' `packet_craft` do the same.
pub master_craft-craft :
    (p : Packet) (id type selector n : ℕ) (body : Option (List ℕ))
    → master_craft p id type selector n body ≡ craft p id type selector body n
unfolding master_craft craft
master_craft-craft p id type selector n body = refl

-- A checksum that fits.
pub crc_check-crafted :
    (p : Packet) (id type selector : ℕ) (body : List ℕ)
    → IsBytes (message id type selector body)
    → crc_check (raw (crafted p id type selector body)) (5 + length body) ≡ 0
crc_check-crafted p id type selector body h =
    ap (crc_check (raw (crafted p id type selector body))) (size-eq (length body))
    ∙ (crc_check_iff msg rest (crc msg (length msg)) h (crc-lt msg h)).1 (sym (crc_prefix msg _))
  where
    msg : List ℕ
    msg = message id type selector body

    rest : List ℕ
    rest = drop (suc (length body)) p.body

-- A packet of bytes that `packet_craft` makes of a body of at most 32 bytes (or none) and a known
-- type, in an array of 33 bytes, passes `packet_check_crc`.
pub check_crc-craft :
    (p : Packet) (id type selector : ℕ) (body : Option (List ℕ))
    → length p.body ≡ 33
    → length (bytes_of body) ≤ 32
    → type < com_type limit
    → IsBytes (message id type selector (bytes_of body))
    → check_crc (craft p id type selector body (length (bytes_of body))).1 ≡ 0
unfolding check_crc
check_crc-craft p id type selector body room fits sane h =
    rw
      (
        craft_lem p id type selector body room fits sane,
        crc_check-crafted p id type selector (bytes_of body) h,
      )
      refl
