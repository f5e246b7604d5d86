-- ===== src/Master/Comm/Send.antt =====
-- What `communication_send` puts on the serial line.
use ammc.Base.{
  ℕ, ◌+◌, ◌≤◌, ◌<◌, ◌≡◌, refl, ap, ◌∙◌, ◌||◌, true, false, Option, List, ◌++◌, length, ltb, ◌==◌,
  arith,
}
use ammc.Packet.{Packet, raw, com_type, limit}
use ammc.Packet.Frame.{bytes_of, frame, crafted, craft_lem, master_craft-craft, wire-crafted}
use ammc.Port
use ammc.Port.{Port}
use ammc.Master.Comm.{send, next_id}

module _ (stack : Packet) (port : Port) (id type selector : ℕ) (body : Option (List ℕ))
    (room : length stack.body ≡ 33) (known : type < com_type limit) where
  send-crafted :
      length (bytes_of body) ≤ 32
      → send stack port id type selector (length (bytes_of body)) body
        ≡ (Port.write port
            (raw (crafted stack id type selector (bytes_of body)))
            (5 + length (bytes_of body))).1
  unfolding send
  send-crafted fits =
      ap (λ t. (Port.write port (raw t.1) t.1.size).1)
        (master_craft-craft stack id type selector (length (bytes_of body)) body
          ∙ craft_lem stack id type selector body room fits known)

  -- `communication_send` of a known type with a body of at most 27 bytes (or none) appends exactly
  -- the packet's frame to what is sent.
  pub send-frame :
      length (bytes_of body) ≤ 27
      → send stack port id type selector (length (bytes_of body)) body
        ≡ record port { output = port.output ++ frame id type selector (bytes_of body) }
  send-frame fits =
      send-crafted (omega arith)
      ∙ unfold Port.write in
        rw sendable (
          ap (λ t. record port { output = port.output ++ t })
            (wire-crafted stack id type selector (bytes_of body)))
    where
      sendable : (5 + length (bytes_of body) == 0 || ltb 32 (5 + length (bytes_of body))) ≡ false
      sendable = ground arith

  -- A packet of a known type with a body of 28 to 32 bytes is longer than the transmit buffer of
  -- serial.c: `communication_send` sends nothing, and the caller is not told.
  pub send_dropped :
      28 ≤ length (bytes_of body)
      → length (bytes_of body) ≤ 32
      → send stack port id type selector (length (bytes_of body)) body ≡ port
  send_dropped long fits = send-crafted fits ∙ unfold Port.write in rw refused refl
    where
      refused : (5 + length (bytes_of body) == 0 || ltb 32 (5 + length (bytes_of body))) ≡ true
      refused = ground arith

-- The next id is never 255.
pub next_id-lt : (id : ℕ) → next_id id < 255
unfolding next_id
next_id-lt id = omega arith
