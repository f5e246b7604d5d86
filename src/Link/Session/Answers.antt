-- ===== src/Link/Session/Answers.antt =====
-- The commands ping and get-speed of the client, the master's operations and its bus.
use ammc.Base.{
  if◌then◌else◌, ◌<◌, ◌≤◌, ◌++◌, true, false, Bool-cases, ◌||◌, ◌==◌, ltb, ℕ, ◌≡◌, ap, refl, none,
  some, List, [], ◌∷◌, length, arith, inl, inr, ◌⊎◌, u8,
}
use ammc.Bus.{Bus}
use ammc.Packet.{Packet, com_type, limit, hnd, ack, dat, get_speed}
use ammc.Packet
use ammc.Packet.Frame.{message, frame, crafted}
use ammc.ComError.{ComError, success, error_code, slave_not_found}
use ammc.Master.Comm.{next_id}
use ammc.Master.Comm.Send.{send-frame}
use ammc.Master.Operations.{Comm, Locals, operation_table, op_ping, op_get_speed, reply}
use ammc.Master.Operations.Replies.{op_ping_lem}
use ammc.Master.Handler.{Handler, run_operation}
use ammc.Master.Handler.Runs.{acknowledged}
use ammc.Client.Comm.{done, packet_next_id}
use ammc.Client.Scan.Decimal.{decimal, atoi-decimal, sscanf_byte-decimal}
use ammc.Client.Commands.{Os, Storage, Message, slave_available, slave_unreachable, speed_of}
use ammc.Client.Commands.Queries.{ping_slave, ping_answer, get_motor_speed}
use ammc.Client.Commands
use ammc.Link.{master}
use ammc.Link.Exchange.{served}
use ammc.Link.Session.Speed.{bit_and-byte}
use ammc.Master.Commands.{command_id, ping, send_command, recv_response, dcmotor_get}
use ammc.Link.Session.Query.{answering, session, psend-query, precv-dat}

module _ (bus : Bus) (locals : Locals) (room : length locals.packet.body ≡ 33) where
  open bus use {World}

  -- What a slave sends back to a ping, and the master's code for it.
  abbrev pub PingCode : ℕ → List ℕ → ℕ → Type 0
  PingCode slave bytes code =
      ((bytes ≡ slave ∷ []) × (code ≡ error_code success))
      ⊎ ((bytes ≡ []) × (code ≡ error_code slave_not_found))

  -- The master sends a ping to the slave and asks it for a byte.
  abbrev pub pinged : World → ℕ → List ℕ × World
  pinged world slave =
      recv_response bus locals.stack
        (send_command bus locals.stack world slave (command_id ping) (some (slave ∷ [])) 1) slave 1

  op_ping_returns : (m : Comm World) (p : Packet) → (op_ping bus locals m p).1 ≡ 0
  unfolding op_ping
  op_ping_returns m p = elim (Bool-cases (p.selector == 0 || ltb 127 p.selector)) [
    | inl e ↦ rw e refl
    | inr e ↦ rw e refl
  ]

  served-ping :
      (g : ℕ) (world : World) (slave : ℕ) (bytes : List ℕ) (after : World) (code : ℕ)
      → 0 < slave
      → slave ≤ 127
      → pinged world slave ≡ (bytes, after)
      → PingCode slave bytes code
      → let p = crafted locals.packet g (com_type Packet.ping) slave [] in
        served bus locals room g world p ≡ answering bus locals room g after p code []
  unfolding run_operation operation_table packet_next_id next_id
  served-ping g world slave bytes after code positive small answer codes =
      let p = crafted locals.packet g (com_type Packet.ping) slave [] in
      let m = (acknowledged bus locals room g world [] g p).comm in
      rw
        (
          op_ping_lem bus locals room m p bytes after code positive small answer codes,
          op_ping_returns m p,
        )
        refl

  served-get_speed :
      (g : ℕ) (world : World) (motor low high : ℕ) (after : World)
      → motor < 256
      → dcmotor_get bus locals.stack world motor ≡ (low ∷ high ∷ [], after)
      → let p = crafted locals.packet g (com_type get_speed) motor [] in
        served bus locals room g world p
        ≡ answering bus locals room g after p motor (low ∷ high ∷ [])
  unfolding run_operation operation_table packet_next_id next_id op_get_speed reply
  served-get_speed g world motor low high after small answer =
      rw
        (
          bit_and-byte motor small,
          answer,
          send-frame locals.packet _ _ (com_type dat) motor (some (low ∷ high ∷ [])) room
              (omega arith) (omega arith),
        )
        refl

  module _ (os : Os (Handler World)) (client : Commands.Locals)
      (ready : length client.packet.body ≡ 33) (rx_room : length client.pack_rx.body ≡ 33) (fd : ℕ)
      (device : 2 < fd) (tty : (w : Handler World) → os.is_tty w fd ≡ true) where
    abbrev at : ℕ → List ℕ → World → Packet → ComError → ℕ → List Message → Storage (Handler World)
    at = session bus locals room os client ready rx_room fd device tty

    code-byte : (slave : ℕ) (bytes : List ℕ) (code : ℕ) → PingCode slave bytes code → code < 256
    code-byte slave bytes code (inl (here, zero_code)) = omega (arith, zero_code)
    code-byte slave bytes code (inr (missing, five)) = omega (arith, five)

    ping_answer-code :
        (slave : ℕ) (bytes : List ℕ) (code : ℕ) (p : Packet) (st : Storage (Handler World))
        → slave < 256
        → PingCode slave bytes code
        → ping_answer (master bus locals) os client slave (record p { selector = code }) st ≡ (
          0,
          record st {
            printed =
                st.printed
                ++ (if code == 0 then slave_available slave else slave_unreachable slave) ∷ [];
          },
        )
    unfolding ping_answer
    ping_answer-code slave bytes code p st byte (inl (here, zero_code)) =
        let same : u8 slave ≡ slave = omega arith in rw (zero_code, same) refl
    ping_answer-code slave bytes code p st byte (inr (missing, five)) =
        let same : u8 slave ≡ slave = omega arith in rw (five, same) refl

    module _ (g : ℕ) (world : World) (rx : Packet) (error : ComError) (performed : ℕ)
        (unread : List ℕ) (printed : List Message) (name : List ℕ) (small : g < 256) where
      -- The client behind an exchange of a packet and its answer.
      abbrev pub answered : World → Message → Storage (Handler World)
      answered after message =
          let next = packet_next_id g in
          at (packet_next_id next) (frame next (com_type ack) 0 []) after
            (crafted locals.packet next (com_type ack) 0 []) success 1 (printed ++ message ∷ [])

      -- The client has the device open; the master rests at the same id, a byte. `ping n` with `n`
      -- from 1 to 127 in decimal notation, when the slave sent its number back to the master or sent
      -- nothing: the command returns 0 and prints that the slave is available in the first case, and
      -- that it could not be reached in the second. The master rests, and both programs are at the
      -- same id.
      pub ping_slave-link :
          (slave : ℕ) (bytes : List ℕ) (after : World) (code : ℕ)
          → 0 < slave
          → slave ≤ 127
          → pinged world slave ≡ (bytes, after)
          → PingCode slave bytes code
          → ping_slave
              (master bus locals)
              os
              client
              (name ∷ decimal slave ∷ [])
              (at g unread world rx error performed printed)
            ≡ done (
              0,
              answered after (if code == 0 then slave_available slave else slave_unreachable slave),
            )
      unfolding ping_slave
      ping_slave-link slave bytes after code positive fits answer codes =
          let next : packet_next_id g < 256 = unfold packet_next_id in omega arith in
          let legal : (slave == 0 || ltb 127 slave) ≡ false = ground arith in
          let byte : u8 slave ≡ slave = omega arith in
          let small_code : code < 256 = code-byte slave bytes code codes in
          rw
            (
              atoi-decimal slave (omega arith),
              legal,
              byte,
              psend-query bus locals room os client ready rx_room fd device tty g world rx error
                  performed printed small unread (com_type Packet.ping) slave none after code []
                  (omega arith) (omega arith) (omega arith)
                  (small, (omega arith, (omega arith, (omega arith, tt))))
                  (served-ping g world slave bytes after code positive fits answer codes),
              precv-dat bus locals room os client ready rx_room fd device tty (packet_next_id g)
                  after (crafted locals.packet g (com_type Packet.ping) slave []) success 1 printed
                  next code [] (omega arith) small_code tt,
            )
            (ap done (
              ping_answer-code slave bytes code
                (crafted client.pack_rx (packet_next_id g) (com_type dat) code []) _ (omega arith)
                codes))

      -- In the same state, `get-speed m` for a motor from 1 to 255, when the master gets the speed
      -- `low + 256 * high` from its bus, returns 0 and prints `low` alone as the speed, whatever
      -- `high` is. The master rests, and both programs are at the same id.
      pub get_motor_speed-link :
          (motor low high : ℕ) (after : World)
          → 0 < motor
          → motor < 256
          → low < 256
          → high < 256
          → dcmotor_get bus locals.stack world motor ≡ (low ∷ high ∷ [], after)
          → get_motor_speed
              (master bus locals)
              os
              client
              (name ∷ decimal motor ∷ [])
              (at g unread world rx error performed printed)
            ≡ done (0, answered after (speed_of motor low))
      unfolding get_motor_speed
      get_motor_speed-link motor low high after positive byte low_byte high_byte answer =
          let next : packet_next_id g < 256 = unfold packet_next_id in omega arith in
          let nonzero : (motor == 0) ≡ false = ground arith in
          rw
            (
              sscanf_byte-decimal motor byte,
              nonzero,
              psend-query bus locals room os client ready rx_room fd device tty g world rx error
                  performed printed small unread (com_type get_speed) motor none after motor
                  (low ∷ high ∷ []) (omega arith) (omega arith) (omega arith)
                  (small, (omega arith, (byte, (omega arith, tt))))
                  (served-get_speed g world motor low high after byte answer),
              precv-dat bus locals room os client ready rx_room fd device tty (packet_next_id g)
                  after (crafted locals.packet g (com_type get_speed) motor []) success 1 printed
                  next motor (low ∷ high ∷ []) (omega arith) byte (low_byte, (high_byte, tt)),
            )
            refl
