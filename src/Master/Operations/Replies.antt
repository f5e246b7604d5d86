-- ===== src/Master/Operations/Replies.antt =====
-- What the operations answer to the client.
use ammc.Base.{
  ℕ, suc, ◌+◌, ◌-◌, ◌≤◌, ◌<◌, ◌≡◌, ◌⊎◌, inl, inr, refl, ap, ◌∙◌, sym, ◌&&◌, ◌||◌, not, false, none,
  some, List, [], ◌∷◌, ◌++◌, length, drop, take-append, take_all, overlay, leb, ltb, ◌==◌, ==_iff,
  if◌then◌else◌, u8, arith,
}
use ammc.Bus.{Bus}
use ammc.Crc.{crc}
use ammc.Packet.{
  Packet, com_type, dat, echo, master_craft, packet_header, attach_crc, raw, limit, body_max_len,
  sizeof_header, sizeof_crc,
}
use ammc.Packet.Frame.{message, frame, crafted}
use ammc.ComError.{error_code, success, slave_not_found}
use ammc.Port
use ammc.Port.{Port}
use ammc.Master.Comm.{send}
use ammc.Master.Comm.Send.{send-frame}
use ammc.Master.Commands.{command_id, ping, send_command, recv_response}
use ammc.Master.Operations.{Locals, Comm, reply, op_echo, op_ping}

-- A body pointer to more bytes than are asked for.
send-prefix :
    (stack : Packet) (port : Port) (id type selector : ℕ) (xs ys : List ℕ)
    → send stack port id type selector (length xs) (some (xs ++ ys))
      ≡ send stack port id type selector (length xs) (some xs)
unfolding send master_craft
send-prefix stack port id type selector xs ys =
    ap
      (λ bytes.
        let size = u8 (sizeof_header + length xs + sizeof_crc) in
        let q = record (packet_header stack id type selector size) {
          body = overlay stack.body bytes;
        } in
        let p : ℕ × Packet =
          (if ltb body_max_len (length xs)
              || false && not (length xs == 0)
              || leb (com_type limit) type
            then (1, stack)
            else (0, attach_crc q (length xs))) in
        (Port.write port (raw p.1) p.1.size).1)
      (take-append xs ys ∙ sym (take_all (length xs) xs (omega arith)))

module _ (bus : Bus) (locals : Locals) (room : length locals.packet.body ≡ 33) where
  open bus use {World}

  -- The echo operation answers a packet with a body of at most 27 bytes by a packet of the same
  -- body, with the id that the master is at.
  pub op_echo_lem :
      (m : Comm World) (rx : Packet) (id selector : ℕ) (body : List ℕ)
      → length body ≤ 27
      → (op_echo bus locals m (crafted rx id (com_type echo) selector body)).0 ≡ record m {
        port = record m.port { output = m.port.output ++ frame m.global_id (com_type dat) 0 body };
      }
  unfolding op_echo reply
  op_echo_lem m rx id selector body short =
      ap (λ port. record m { port = port })
        (ap
            (λ n.
              send locals.packet m.port m.global_id (com_type dat) 0 n
                (some (body ++ check ∷ left)))
            size
          ∙ send-prefix locals.packet m.port m.global_id (com_type dat) 0 body (check ∷ left)
          ∙ send-frame locals.packet m.port m.global_id (com_type dat) 0 (some body) room
              (omega arith) short)
    where
      check : ℕ
      check =
          crc (message id (com_type echo) selector body)
            (length (message id (com_type echo) selector body))

      left : List ℕ
      left = drop (suc (length body)) rx.body

      size : u8 (5 + length body + 256 - 4 - 1) ≡ length body
      size = omega arith

  -- The ping operation for a slave id from 1 to 127: the master answers with a packet of its id
  -- that has no body and carries code 0 if the slave sent its id back, or the code of a slave that
  -- was not found if it sent nothing.
  pub op_ping_lem :
      (m : Comm World) (p : Packet) (bytes : List ℕ) (world : World) (code : ℕ)
      → 0 < p.selector
      → p.selector ≤ 127
      → recv_response bus locals.stack
          (send_command bus locals.stack m.world p.selector
            (command_id ping)
            (some (p.selector ∷ []))
            1)
          p.selector
          1
        ≡ (bytes, world)
      → ((bytes ≡ p.selector ∷ []) × (code ≡ error_code success))
        ⊎ ((bytes ≡ []) × (code ≡ error_code slave_not_found))
      → (op_ping bus locals m p).0 ≡ record m {
        port = record m.port { output = m.port.output ++ frame m.global_id (com_type dat) code [] };
        world = world;
      }
  unfolding op_ping reply
  op_ping_lem m p bytes world code positive small answer (inl (here, zero_code)) =
      rw (legal, answer, here, (==_iff p.selector p.selector).1 refl, zero_code)
        (ap (λ port. record m { port = port; world = world })
          (send-frame locals.packet m.port m.global_id (com_type dat) 0 none room (omega arith)
            (omega arith)))
    where
      legal : (p.selector == 0 || ltb 127 p.selector) ≡ false
      legal = ground arith
  op_ping_lem m p bytes world code positive small answer (inr (missing, five)) =
      rw (legal, answer, missing, five)
        (ap (λ port. record m { port = port; world = world })
          (send-frame locals.packet m.port m.global_id (com_type dat) 5 none room (omega arith)
            (omega arith)))
    where
      legal : (p.selector == 0 || ltb 127 p.selector) ≡ false
      legal = ground arith
