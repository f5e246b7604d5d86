-- ===== src/Link/Exchange.antt =====
-- A packet of the client and the master's answer to it: what both programs have agreed on after it.
use ammc.Base.{
  ◌+◌, ◌∷◌, length-append, take_all, ◌++◌, true, ℕ, ◌*◌, ◌≤◌, ◌<◌, ◌≡◌, ◌≢◌, ap, ◌∙◌, Option, none,
  some, List, [], length, get_or, IsBytes, arith,
}
use ammc.Bus.{Bus}
use ammc.Crc.{crc}
use ammc.Packet.{Packet, com_type, limit, hnd, ack}
use ammc.Packet.Frame.{message, frame, crafted, bytes_of}
use ammc.ComError.{ComError, success}
use ammc.Master.Comm.{next_id}
use ammc.Master.Operations.{Locals, operation_table}
use ammc.Master.Handler.{Handler, returns, receiving, run_operation, communication_handler}
use ammc.Master.Handler.Keeps.{operation-Keeps}
use ammc.Master.Handler.Runs.{acknowledged, waiting, handler_accepts, handler_handshake}
use ammc.Client.Comm.{done, packet_next_id, craft_and_send, connect}
use ammc.Client.Comm.Answers.{send-answered}
use ammc.Link.{exchange, master, settled, cleared, delivered}
use ammc.Link.Fuel.{rounds_more}

length-frame :
    (id type selector : ℕ) (body : List ℕ) → length (frame id type selector body) ≡ 5 + length body
length-frame id type selector body =
    let m = message id type selector body in
    omega (arith, length-append {0} m (crc m (length m) ∷ []))

module _ (bus : Bus) (locals : Locals) (room : length locals.packet.body ≡ 33) where
  open bus use {World}

  -- The master at rest, between two calls of the handler.
  abbrev pub resting : ℕ → World → Packet → ComError → ℕ → Handler World
  resting g world rx error performed = record {
    state = receiving;
    comm = record { global_id = g; port = record { input = []; output = [] }; world = world };
    rx = rx;
    error = error;
    action_performed = performed;
  }

  -- The master after a packet with the id `g` that it accepted, before its answer is taken away.
  abbrev pub served : ℕ → World → Packet → Handler World
  served g world p =
      run_operation bus locals (acknowledged bus locals room g world [] g p)
        (get_or (operation_table bus locals) p.type none)

  module _ (g : ℕ) (world : World) (rx : Packet) (error : ComError) (performed : ℕ) where
    pub exchange-accepts :
        (type selector : ℕ) (body : List ℕ)
        → length body ≤ 27
        → type < com_type limit
        → type ≢ com_type hnd
        → IsBytes (message g type selector body)
        → exchange bus locals (resting g world rx error performed) (frame g type selector body)
          ≡ settled bus locals
              (delivered bus locals
                (resting g world rx error performed)
                (frame g type selector body))
              (some (returns (served g world (crafted locals.packet g type selector body))))
    unfolding exchange communication_handler
    exchange-accepts type selector body fits known other bytes =
        ap (settled bus locals (delivered bus locals start sent)) (
          ap
            (λ input.
              communication_handler bus locals (4 + 4 * length input)
                (waiting bus locals room g world [] input))
            (take_all 32 sent (omega (arith, length-frame g type selector body)))
          ∙ ap (λ n. communication_handler bus locals n (waiting bus locals room g world [] sent))
              (omega arith)
          ∙ rounds_more bus locals (4 * length sent) 4 (waiting bus locals room g world [] sent) _ (
              handler_accepts bus locals room g world [] type selector body (omega arith) known
                other bytes))
      where
        start : Handler World
        start = resting g world rx error performed

        sent : List ℕ
        sent = frame g type selector body

    exchange-connects :
        exchange bus locals (resting g world rx error performed) (frame 0 (com_type hnd) 0 []) ≡ (
          record (resting
              (next_id 0)
              world
              (crafted locals.packet 0 (com_type hnd) 0 [])
              success
              1) { state = receiving },
          frame 0 (com_type ack) 0 [],
        )
    unfolding exchange communication_handler settled
    exchange-connects = ap (settled bus locals (delivered bus locals start sent)) (
        ap (λ n. communication_handler bus locals n (delivered bus locals start sent)) (omega arith)
        ∙ rounds_more bus locals 19 5 (waiting bus locals room g world [] sent) _ (
            handler_handshake bus locals room g world [] 0 [] (omega arith)
              (omega arith, (omega arith, (omega arith, (omega arith, tt))))))
      where
        start : Handler World
        start = resting g world rx error performed

        sent : List ℕ
        sent = frame 0 (com_type hnd) 0 []

    -- The client behind its packet has to read what the master sent behind the acknowledgement.
    pub link_answers :
        (stack : Packet) (unread : List ℕ) (type selector : ℕ) (body : Option (List ℕ))
        (rest : List ℕ)
        → length stack.body ≡ 33
        → length (bytes_of body) ≤ 27
        → type < com_type limit
        → type ≢ com_type hnd
        → IsBytes (message g type selector (bytes_of body))
        → let h = served g world (crafted locals.packet g type selector (bytes_of body)) in
          h.comm.port.output ≡ frame g (com_type ack) 0 [] ++ rest
          → craft_and_send
              (master bus locals)
              stack
              (record {
                tty = true;
                global_id = g;
                input = unread;
                world = resting g world rx error performed;
              })
              type
              selector
              body
              (length (bytes_of body))
            ≡ done (
              0,
              record {
                tty = true;
                global_id = packet_next_id g;
                input = rest;
                world = cleared bus locals h;
              },
            )
    unfolding settled
    link_answers stack unread type selector body rest ready fits known other bytes output =
        send-answered (master bus locals) g (resting g world rx error performed) _ unread rest stack
          ready type selector body (com_type ack) 0 (omega arith) known
          (bytes.0, (omega arith, (omega arith, (omega arith, tt))))
          (exchange-accepts type selector (bytes_of body) fits known other bytes
            ∙ ap
                (λ o. (
                  cleared bus locals
                      (served g world (crafted locals.packet g type selector (bytes_of body))),
                  o,
                ))
                output)

    -- The master rests at an id, and the client is at the same id. A packet that the client crafts
    -- and sends, of a known type other than the handshake, of bytes, with a body of at most 27 of
    -- them, so that the master's receive buffer has room for all of the packet: the client returns 0, and both go on to the same next id. The master has performed the
    -- operation of the type on the packet as it was sent, has read all input, and is in its
    -- receiving state.
    pub link_accepts :
        (stack : Packet) (unread : List ℕ) (type selector : ℕ) (body : Option (List ℕ))
        → length stack.body ≡ 33
        → length (bytes_of body) ≤ 27
        → type < com_type limit
        → type ≢ com_type hnd
        → IsBytes (message g type selector (bytes_of body))
        → let h = served g world (crafted locals.packet g type selector (bytes_of body)) in
          ((rest : List ℕ) × (craft_and_send
                (master bus locals)
                stack
                (record {
                  tty = true;
                  global_id = g;
                  input = unread;
                  world = resting g world rx error performed;
                })
                type
                selector
                body
                (length (bytes_of body))
              ≡ done (
                0,
                record {
                  tty = true;
                  global_id = packet_next_id g;
                  input = rest;
                  world = cleared bus locals h;
                },
              )))
          × (h.comm.global_id ≡ packet_next_id g)
          × (h.state ≡ receiving)
          × (h.comm.port.input ≡ [])
    unfolding next_id packet_next_id
    link_accepts stack unread type selector body ready fits known other bytes =
        let (state, input, id, (rest, output)) = operation-Keeps bus locals type (
          acknowledged bus locals room g world [] g
            (crafted locals.packet g type selector (bytes_of body))) in
        (
          (
            rest,
            link_answers stack unread type selector body rest ready fits known other bytes output,
          ),
          id,
          state,
          input,
        )

    -- Whatever id the client is at and whatever id the resting master is at,
    -- `communication_connect` returns 0 with both at id 1, no bytes left to read on either side,
    -- and the master resting again.
    pub link_connects :
        (stack : Packet) (id : ℕ) (unread : List ℕ)
        → length stack.body ≡ 33
        → connect (master bus locals) stack (record {
          tty = true;
          global_id = id;
          input = unread;
          world = resting g world rx error performed;
        })
          ≡ done (
            0,
            record {
              tty = true;
              global_id = 1;
              input = [];
              world = resting 1 world (crafted locals.packet 0 (com_type hnd) 0 []) success 1;
            },
          )
    unfolding next_id packet_next_id connect
    link_connects stack id unread ready =
        send-answered (master bus locals) 0 (resting g world rx error performed) _ unread [] stack
          ready (com_type hnd) 0 none (com_type ack) 0 (omega arith) (omega arith)
          (omega arith, (omega arith, (omega arith, (omega arith, tt)))) exchange-connects
