-- ===== src/Link/Answer.antt =====
-- A packet of the client that the master answers by a packet of its own, behind the acknowledgement.
use ammc.Base.{
  true, ℕ, ◌≤◌, ◌<◌, ◌≡◌, refl, none, some, List, [], ◌++◌, length, take, take_all, IsBytes, arith,
}
use ammc.Bus.{Bus}
use ammc.Packet.{Packet, craft, craft_ack, com_type, ack}
use ammc.Packet.Frame.{message, frame, crafted, craft_lem, wire-crafted}
use ammc.ComError.{ComError, success}
use ammc.Master.Comm.{next_id, is_success}
use ammc.Master.Operations.{Locals, operation_table}
use ammc.Master.Handler.{run_operation}
use ammc.Client.Comm.{Line, done, packet_next_id, recv, serial_tx}
use ammc.Client.Comm.Answers.{attempt-frame}
use ammc.Link.{settled, exchange}
use ammc.Link.Exchange.{resting, exchange-accepts}

-- Of the bytes that `body` points to, `packet_craft` takes as many as the size says.
pub craft-prefix :
    (p : Packet) (id type selector : ℕ) (bytes xs : List ℕ)
    → take (length xs) bytes ≡ xs
    → craft p id type selector (some bytes) (length xs)
      ≡ craft p id type selector (some xs) (length xs)
unfolding craft
craft-prefix p id type selector bytes xs e = rw (e, take_all (length xs) xs (omega arith)) refl

-- `communication_recv` on a frame with the expected id gives the crafted packet, and acknowledges
-- it.
pub client_recv-frame :
    (line : Line) (g : ℕ) (world world' : line.World) (type selector : ℕ)
    (body rest answer : List ℕ) (stack p : Packet)
    → length stack.body ≡ 33
    → length p.body ≡ 33
    → length body ≤ 32
    → IsBytes (message g type selector body)
    → line.exchange world (frame g (com_type ack) 0 []) ≡ (world', answer)
    → recv line stack
        (record {
          tty = true;
          global_id = g;
          input = frame g type selector body ++ rest;
          world = world;
        })
        p
      ≡ done (
        0,
        crafted p g type selector body,
        record { tty = true; global_id = packet_next_id g; input = rest ++ answer; world = world' },
      )
unfolding recv serial_tx craft_ack is_success
client_recv-frame line g world world' type selector body rest answer stack p ready room fits bytes
      answers =
    rw
      (
        attempt-frame line g world p type selector body rest room fits bytes,
        craft_lem stack g (com_type ack) 0 none ready (omega arith) (omega arith),
        wire-crafted stack g (com_type ack) 0 [],
        answers,
      )
      refl

module _ (bus : Bus) (locals : Locals) (room : length locals.packet.body ≡ 33) where
  open bus use {World}

  module _ (g : ℕ) (world : World) (rx : Packet) (error : ComError) (performed : ℕ) where
    -- The client's acknowledgement of that packet is a packet, too: the resting master acknowledges
    -- it, performs nothing, and goes on to the next id as the client does.
    pub exchange-ack :
        g < 256
        → exchange bus locals
            (resting bus locals room g world rx error performed)
            (frame g (com_type ack) 0 [])
          ≡ (
            resting bus locals room
                (packet_next_id g)
                world
                (crafted locals.packet g (com_type ack) 0 [])
                success
                1,
            frame g (com_type ack) 0 [],
          )
    unfolding settled run_operation operation_table packet_next_id next_id
    exchange-ack small =
        exchange-accepts bus locals room g world rx error performed (com_type ack) 0 []
          (omega arith) (omega arith) (omega arith)
          (small, (omega arith, (omega arith, (omega arith, tt))))
