-- ===== src/Master/Comm/Receive.antt =====
-- What `communication_recv` does with the bytes that come in.
use ammc.Base.{
  ℕ, ◌+◌, ◌-◌, ◌≤◌, ◌<◌, ◌≡◌, ◌⊎◌, refl, ◌∙◌, true, false, List, [], ◌∷◌, ◌++◌, length, overlay,
  Bool-cases, inl, inr, none, ltb, u8, if◌then◌else◌, arith,
}
use ammc.Packet.{Packet, com_type, hnd}
use ammc.ComError.{success}
use ammc.Port
use ammc.Port.{Port}
use ammc.Port.Reads.{read-append}
use ammc.Master.Comm.{
  header_sanity, packet_sanity, done, blocked, overflow, recv_body, is_success, recv,
}

-- The id is the expected one, or the packet is a handshake with id 0.
abbrev pub IsExpected : ℕ → ℕ → ℕ → Type 0
IsExpected global_id id type = (id ≡ global_id) ⊎ ((type ≡ com_type hnd) × (id ≡ 0))

abbrev pub header : Packet → ℕ → ℕ → ℕ → ℕ → Packet
header rx id type selector size = record rx {
  id = id;
  type = type;
  selector = selector;
  size = size;
}

module _ (g id type selector size : ℕ) (tail rest output : List ℕ) (rx : Packet) where
  abbrev pub incoming : Port
  incoming = record { input = id ∷ type ∷ selector ∷ size ∷ (tail ++ rest); output = output }

  -- The header is read, and judged.
  pub recv_header : recv g incoming rx ≡ (
      if is_success (header_sanity g (header rx id type selector size))
      then recv_body
          (record { input = tail ++ rest; output = output })
          (header rx id type selector size)
      else done
          (header_sanity g (header rx id type selector size))
          (header rx id type selector size)
          (record { input = tail ++ rest; output = output }))
  unfolding recv
  recv_header = rw (read-append (id ∷ type ∷ selector ∷ size ∷ []) (tail ++ rest) output, recv) refl

  header_sane :
      IsExpected g id type → size ≤ 37 → header_sanity g (header rx id type selector size) ≡ success
  unfolding header_sanity
  header_sane h k = ground arith

  -- A header with the expected id (or of a handshake with id 0) and a size below 4 makes the size
  -- of the rest wrap round to more than 33. When more than 33 bytes follow it,
  -- `communication_recv` writes past the packet; with fewer it waits for more.
  pub recv_undersized :
      IsExpected g id type
      → size < 4
      → recv g incoming rx ≡ (if ltb 33 (length (tail ++ rest)) then overflow else blocked)
  unfolding recv_body
  recv_undersized h k =
      recv_header
      ∙ rw (header_sane h (omega arith)) (
          unfold is_success in
          elim (Bool-cases (ltb 33 (length (tail ++ rest)))) [
            | inl enough ↦ rw (wraps, enough, recv_body) refl
            | inr few ↦ rw (wraps, few, recv_body) (rw (read_short few) refl)
          ])
    where
      read_short :
          ltb 33 (length (tail ++ rest)) ≡ false
          → Port.read (record { input = tail ++ rest; output = output }) (u8 (size + 256 - 4))
            ≡ none
      read_short few = unfold Port.read in ground arith

      wraps : ltb 33 (u8 (size + 256 - 4)) ≡ true
      wraps = ground arith

  -- The packet of a header with the expected id and its `size - 4` bytes is stored and checked.
  pub recv_whole :
      IsExpected g id type
      → length tail + 4 ≡ size
      → size ≤ 37
      → recv g incoming rx
        ≡ done
            (packet_sanity
              (record (header rx id type selector size) { body = overlay rx.body tail }))
            (record (header rx id type selector size) { body = overlay rx.body tail })
            (record { input = rest; output = output })
  unfolding recv_body
  recv_whole h e k =
      recv_header
      ∙ rw (header_sane h k)
          (unfold is_success in rw (count, small, read-append tail rest output, recv_body) refl)
    where
      count : u8 (size + 256 - 4) ≡ length tail
      count = omega arith

      small : ltb 33 (length tail) ≡ false
      small = ground arith
