-- ===== src/Link/Session/Query.antt =====
-- A command that sends a packet to the master and receives one back.
use ammc.Base.{
  true, false, ℕ, ◌≤◌, ◌<◌, ◌≡◌, ◌≢◌, ap, ◌∙◌, sym, refl, Option, List, [], ◌++◌, append-nil,
  length, IsBytes, arith, ltb, ◌==◌,
}
use ammc.Bus.{Bus}
use ammc.Packet.{Packet, com_type, limit, hnd, ack, dat}
use ammc.Packet.Frame.{message, frame, crafted, bytes_of}
use ammc.ComError.{ComError, success}
use ammc.Master.Operations.{Locals}
use ammc.Master.Handler.{Handler, receiving}
use ammc.Client.Comm.{done, packet_next_id, recv}
use ammc.Client.Commands.{Os, Storage, Message, echoed, psend, precv, valid_dev, is_zero}
use ammc.Client.Commands
use ammc.Link.{master}
use ammc.Link.Exchange.{resting, served, link_answers}
use ammc.Link.Answer.{client_recv-frame, exchange-ack}
use ammc.Link.Session.{connected}

module _ (bus : Bus) (locals : Locals) (room : length locals.packet.body ≡ 33) where
  open bus use {World}

  -- The master behind a packet with the id `g`, which it acknowledged and answered by a packet of
  -- the next id.
  abbrev pub answering : ℕ → World → Packet → ℕ → List ℕ → Handler World
  answering g world rx selector body = record {
    state = receiving;
    comm = record {
      global_id = packet_next_id g;
      port = record {
        input = [];
        output =
            frame g (com_type ack) 0 [] ++ frame (packet_next_id g) (com_type dat) selector body;
      };
      world = world;
    };
    rx = rx;
    error = success;
    action_performed = 1;
  }

  module _ (os : Os (Handler World)) (client : Commands.Locals)
      (ready : length client.packet.body ≡ 33) (rx_room : length client.pack_rx.body ≡ 33) (fd : ℕ)
      (device : 2 < fd) (tty : (w : Handler World) → os.is_tty w fd ≡ true) where
    positive : (fd == 0) ≡ false
    positive = ground arith

    standard : ltb 2 fd ≡ true
    standard = ground arith

    -- The client with the device open and the master at rest, both at the same id.
    abbrev pub session :
        ℕ → List ℕ → World → Packet → ComError → ℕ → List Message → Storage (Handler World)
    session g unread world rx error performed printed =
        connected bus locals room os client ready fd device tty g unread
          (resting bus locals room g world rx error performed) printed

    module _ (g : ℕ) (world : World) (rx : Packet) (error : ComError) (performed : ℕ)
        (printed : List Message) (small : g < 256) where
      -- The client behind a packet that the master answered.
      pub psend-query :
          (unread : List ℕ) (type selector : ℕ) (body : Option (List ℕ)) (after : World)
          (detail : ℕ) (answer : List ℕ)
          → length (bytes_of body) ≤ 27
          → type < com_type limit
          → type ≢ com_type hnd
          → IsBytes (message g type selector (bytes_of body))
          → let p = crafted locals.packet g type selector (bytes_of body) in
            served bus locals room g world p ≡ answering g after p detail answer
            → psend
                (master bus locals)
                os
                client
                (session g unread world rx error performed printed)
                type
                selector
                body
                (length (bytes_of body))
              ≡ done (
                0,
                session
                    (packet_next_id g)
                    (frame (packet_next_id g) (com_type dat) detail answer)
                    after
                    p
                    success
                    1
                    printed,
              )
      unfolding psend valid_dev
      psend-query unread type selector body after detail answer fits known other bytes serves =
          rw
            (
              positive,
              standard,
              tty (resting bus locals room g world rx error performed),
              link_answers bus locals room g world rx error performed client.packet unread type
                  selector body (frame (packet_next_id g) (com_type dat) detail answer) ready fits
                  known other bytes (ap (λ h. h.comm.port.output) serves),
              serves,
            )
            refl

      -- The answer is received and acknowledged; the master acknowledges that, too, so that both
      -- programs go on to the next id.
      pub precv-dat :
          (selector : ℕ) (body : List ℕ)
          → length body ≤ 32
          → selector < 256
          → IsBytes body
          → precv
              (master bus locals)
              os
              client
              (session g (frame g (com_type dat) selector body) world rx error performed printed)
            ≡ done (
              0,
              crafted client.pack_rx g (com_type dat) selector body,
              session
                  (packet_next_id g)
                  (frame g (com_type ack) 0 [])
                  world
                  (crafted locals.packet g (com_type ack) 0 [])
                  success
                  1
                  printed,
            )
      unfolding precv valid_dev
      precv-dat selector body fits byte bytes =
          let start = resting bus locals room g world rx error performed in
          let received =
            client_recv-frame (master bus locals) g start _ (com_type dat) selector body [] _
              client.packet client.pack_rx ready rx_room fits
              (small, (omega arith, (byte, (omega arith, bytes))))
              (exchange-ack bus locals room g world rx error performed small) in
          rw
            (
              positive,
              standard,
              tty start,
              ap
                    (λ input.
                      recv (master bus locals) client.packet
                        (record { tty = true; global_id = g; input = input; world = start })
                        client.pack_rx)
                    (sym (append-nil (frame g (com_type dat) selector body)))
                  ∙ received,
            )
            refl
