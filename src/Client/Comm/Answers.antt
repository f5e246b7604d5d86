-- ===== src/Client/Comm/Answers.antt =====
-- What the client's communication module does with the answer to a packet.
use ammc.Base.{
  true, ℕ, ◌+◌, ◌≤◌, ◌<◌, ◌≡◌, ◌⊎◌, inl, inr, Bool-cases, refl, ◌∙◌, ◌||◌, false, not, Option, List,
  [], ◌∷◌, ◌++◌, length, length-append, take-append, drop-append, overlay, ltb, ◌==◌, IsBytes,
  if◌then◌else◌, ==_iff, arith,
}
use ammc.Packet.{Packet, check_crc, com_type, ack, limit}
use ammc.Packet.Frame.{
  message, frame, crafted, crc_check-crafted, bytes_of, craft_lem, wire-crafted,
}
use ammc.ComError.{success, id_mismatch, corrupted_checksum}
use ammc.Master.Comm.{is_success}
use ammc.Master.Comm.Receive.{header}
use ammc.Master.Comm.Frames.{trailer, stored-crafted}
use ammc.Client.Comm.{
  overflow, blocked, unspecified, ssize_max, Line, done, rest_size, packet_next_id, serial_rx,
  serial_tx, recv_rest, recv_attempt, transmit_packet, send, craft_and_send,
}

module _ (line : Line) where
  open line use {World, exchange}

  serial_rx-append :
      (g : ℕ) (world : World) (bs rest : List ℕ)
      → serial_rx line
          (record { tty = true; global_id = g; input = bs ++ rest; world = world })
          (length bs)
        ≡ done (bs, record { tty = true; global_id = g; input = rest; world = world })
  unfolding serial_rx
  serial_rx-append g world bs rest = rw (there, take-append, drop-append) refl
    where
      there : ltb (length (bs ++ rest)) (length bs) ≡ false
      there = ground (arith, length-append {0} bs rest)

  module _ (g : ℕ) (world : World) (stack : Packet) where
    attempt-header :
        (id type selector size : ℕ) (tail : List ℕ)
        → recv_attempt line
            (record {
              tty = true;
              global_id = g;
              input = id ∷ type ∷ selector ∷ size ∷ tail;
              world = world;
            })
            stack
          ≡ (if not (id == g)
              then done (
                id_mismatch,
                header stack id type selector size,
                record { tty = true; global_id = g; input = tail; world = world },
              )
              else recv_rest line
                  (record { tty = true; global_id = g; input = tail; world = world })
                  (header stack id type selector size))
    unfolding recv_attempt
    attempt-header id type selector size tail =
        rw (serial_rx-append g world (id ∷ type ∷ selector ∷ size ∷ []) tail, recv_attempt) refl

    -- The packet of a header with the expected id and its `size - 4` bytes is stored and checked.
    attempt-whole :
        (type selector size : ℕ) (tail rest : List ℕ)
        → length tail + 4 ≡ size
        → size ≤ 37
        → let q = record (header stack g type selector size) { body = overlay stack.body tail } in
          recv_attempt line
            (record {
              tty = true;
              global_id = g;
              input = g ∷ type ∷ selector ∷ size ∷ (tail ++ rest);
              world = world;
            })
            stack
          ≡ done (
            if not (check_crc q == 0) then corrupted_checksum else success,
            q,
            record { tty = true; global_id = g; input = rest; world = world },
          )
    unfolding recv_rest
    attempt-whole type selector size tail rest e k =
        attempt-header g type selector size (tail ++ rest)
        ∙ rw
            (
              (==_iff g g).1 refl,
              counts,
              count,
              small,
              serial_rx-append g world tail rest,
              recv_rest,
            )
            refl
      where
        count : rest_size size ≡ length tail
        count = omega arith

        small : ltb 33 (length tail) ≡ false
        small = ground arith

        counts : ltb ssize_max (rest_size size) ≡ false
        counts = ground arith

    -- A header with the expected id and a size that does not fit: from 38 on, with more than 33
    -- bytes behind the header, `_recv_attempt` writes past the packet, and with fewer it waits for
    -- more; below 4, the count of its call of `read` is above SSIZE_MAX.
    pub attempt_unsized :
        (type selector size : ℕ) (tail : List ℕ)
        → (size < 4) ⊎ ((37 < size) × (size < 256))
        → recv_attempt line
            (record {
              tty = true;
              global_id = g;
              input = g ∷ type ∷ selector ∷ size ∷ tail;
              world = world;
            })
            stack
          ≡ (if ltb size 4 then unspecified else if ltb 33 (length tail) then overflow else blocked)
    unfolding recv_rest serial_rx
    attempt_unsized type selector size tail (inl small) =
        let below : ltb size 4 ≡ true = ground arith in
        let wraps : ltb ssize_max (rest_size size) ≡ true = ground arith in
        attempt-header g type selector size tail ∙ rw ((==_iff g g).1 refl, wraps, below) refl
    attempt_unsized type selector size tail (inr (large, byte)) =
        let below : ltb size 4 ≡ false = ground arith in
        let counts : ltb ssize_max (rest_size size) ≡ false = ground arith in
        let long : ltb 33 (rest_size size) ≡ true = ground arith in
        attempt-header g type selector size tail ∙ elim (Bool-cases (ltb 33 (length tail))) [
          | inl enough ↦ rw ((==_iff g g).1 refl, counts, long, enough, below) refl
          | inr few ↦
              let short : ltb (length tail) (rest_size size) ≡ true = ground arith in
              rw ((==_iff g g).1 refl, counts, long, few, below, short) refl
        ]

    -- A frame with the expected id is accepted: the packet is the crafted one.
    pub attempt-frame :
        (type selector : ℕ) (body rest : List ℕ)
        → length stack.body ≡ 33
        → length body ≤ 32
        → IsBytes (message g type selector body)
        → recv_attempt line
            (record {
              tty = true;
              global_id = g;
              input = frame g type selector body ++ rest;
              world = world;
            })
            stack
          ≡ done (
            success,
            crafted stack g type selector body,
            record { tty = true; global_id = g; input = rest; world = world },
          )
    unfolding check_crc
    attempt-frame type selector body rest room fits bytes =
        attempt-whole type selector (5 + length body) (body ++ check ∷ []) rest
          (omega (arith, length-append {0} body (check ∷ []))) (omega arith)
        ∙ rw
            (
              stored-crafted g g type selector body rest [] stack room fits,
              crc_check-crafted stack g type selector body bytes,
            )
            refl
      where
        check : ℕ
        check = trailer g g type selector body rest [] stack

  module _ (g : ℕ) (world world' : World) (input rest : List ℕ) (stack : Packet)
      (room : length stack.body ≡ 33) where
    -- `communication_craft_and_send` with a body of at most 32 bytes (or none) and a known type
    -- sends the frame of the request. If the other end answers with a frame of bytes that has the
    -- same id and no body, the call returns 0 with the next id when that frame is an
    -- acknowledgement, and 1 with id 0 when it is of any other type; what follows the frame is left
    -- to read.
    pub send-answered :
        (type selector : ℕ) (body : Option (List ℕ)) (answer detail : ℕ)
        → length (bytes_of body) ≤ 32
        → type < com_type limit
        → IsBytes (message g answer detail [])
        → exchange world (frame g type selector (bytes_of body))
          ≡ (world', frame g answer detail [] ++ rest)
        → craft_and_send line stack
            (record { tty = true; global_id = g; input = input; world = world })
            type
            selector
            body
            (length (bytes_of body))
          ≡ done (
              if answer == com_type ack
              then (
                0,
                record { tty = true; global_id = packet_next_id g; input = rest; world = world' },
              )
              else (1, record { tty = true; global_id = 0; input = rest; world = world' }))
    unfolding craft_and_send send transmit_packet serial_tx is_success
    send-answered type selector body answer detail fits known bytes answers =
        rw (craft_lem stack g type selector body room fits known, craft_and_send)
          (sent (bytes_of body) fits answers)
      where
        sent :
            (bs : List ℕ)
            → length bs ≤ 32
            → exchange world (frame g type selector bs) ≡ (world', frame g answer detail [] ++ rest)
            → send line stack
                (record { tty = true; global_id = g; input = input; world = world })
                (crafted stack g type selector bs)
              ≡ done (
                  if answer == com_type ack
                  then (
                    0,
                    record {
                      tty = true;
                      global_id = packet_next_id g;
                      input = rest;
                      world = world';
                    },
                  )
                  else (1, record { tty = true; global_id = 0; input = rest; world = world' }))
        sent bs small e =
            rw
              (
                legal,
                wire-crafted stack g type selector bs,
                e,
                attempt-frame g world' stack answer detail [] rest room (omega arith) bytes,
                send,
              )
              refl
          where
            legal : (5 + length bs == 0 || ltb 37 (5 + length bs)) ≡ false
            legal = ground arith
