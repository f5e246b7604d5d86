-- ===== src/Link/Session/Keeps.antt =====
-- Sequences of the client's commands over the line: what holds of both programs between them.
use ammc.Base.{
  ℕ, ◌<◌, ◌≤◌, ◌≡◌, ◌≢◌, ap, ◌∙◌, refl, sym, true, false, append-nil, ltb, ◌==◌, Option, List, [],
  length, IsBytes, arith,
}
use ammc.Bus.{Bus}
use ammc.Packet.{Packet, com_type, limit, hnd, ack}
use ammc.Packet.Frame.{message, frame, crafted, bytes_of}
use ammc.ComError.{ComError}
use ammc.Master.Operations.{Locals}
use ammc.Master.Handler.{Handler, receiving}
use ammc.Client.Comm.{done, packet_next_id}
use ammc.Client.Commands.{Os, Storage, Message, psend, valid_dev}
use ammc.Client.Commands
use ammc.Link.{master, cleared}
use ammc.Link.Exchange.{resting, served, link_answers, link_accepts}
use ammc.Link.Session.{connected}

module _ (bus : Bus) (locals : Locals) (room : length locals.packet.body ≡ 33) where
  open bus use {World}

  cleared-resting :
      (h : Handler World) (g : ℕ)
      → h.state ≡ receiving
      → h.comm.global_id ≡ g
      → h.comm.port.input ≡ []
      → cleared bus locals h
        ≡ resting bus locals room g h.comm.world h.rx h.error h.action_performed
  cleared-resting h g state id input = rw (state, id, input) refl

  module _ (os : Os (Handler World)) (client : Commands.Locals)
      (ready : length client.packet.body ≡ 33) (rx_room : length client.pack_rx.body ≡ 33) (fd : ℕ)
      (device : 2 < fd) (tty : (w : Handler World) → os.is_tty w fd ≡ true) where
    -- Both programs between two commands: the device is open, the master rests, both are at the same
    -- id, a byte, and neither has anything left to read.
    pub record Agreed : Type 0 where
      pub id : ℕ
      pub small : id < 256
      pub world : World
      pub rx : Packet
      pub error : ComError
      pub performed : ℕ
      pub printed : List Message

    abbrev pub storage : Agreed → Storage (Handler World)
    storage a =
        connected bus locals room os client ready fd device tty a.id []
          (resting bus locals room a.id a.world a.rx a.error a.performed) a.printed

    pub psend-keeps :
        (a : Agreed) (type selector : ℕ) (body : Option (List ℕ))
        → length (bytes_of body) ≤ 27
        → type < com_type limit
        → type ≢ com_type hnd
        → IsBytes (message a.id type selector (bytes_of body))
        → (served bus locals room a.id a.world
            (crafted locals.packet a.id type selector (bytes_of body))).comm.port.output
          ≡ frame a.id (com_type ack) 0 []
        → (a' : Agreed) × (psend
              (master bus locals)
              os
              client
              (storage a)
              type
              selector
              body
              (length (bytes_of body))
            ≡ done (0, storage a'))
    unfolding psend valid_dev
    psend-keeps a type selector body fits known other bytes only =
        let p = crafted locals.packet a.id type selector (bytes_of body) in
        let h = served bus locals room a.id a.world p in
        let next : packet_next_id a.id < 256 = unfold packet_next_id in omega arith in
        let sent =
          link_answers bus locals room a.id a.world a.rx a.error a.performed client.packet [] type
            selector body [] ready fits known other bytes (only ∙ sym (append-nil _)) in
        let (_, id, state, input) =
          link_accepts bus locals room a.id a.world a.rx a.error a.performed client.packet [] type
            selector body ready fits known other bytes in
        let positive : (fd == 0) ≡ false = ground arith in
        let standard : ltb 2 fd ≡ true = ground arith in
        let start = resting bus locals room a.id a.world a.rx a.error a.performed in
        let rests = cleared-resting h (packet_next_id a.id) state id input in
        (
          record {
            id = packet_next_id a.id;
            small = next;
            world = h.comm.world;
            rx = h.rx;
            error = h.error;
            performed = h.action_performed;
            printed = a.printed;
          },
          rw (positive, standard, tty start, sent) refl
              ∙ ap
                  (λ w. done (
                    0,
                    connected bus locals room os client ready fd device tty (packet_next_id a.id) []
                        w a.printed,
                  ))
                  rests,
        )
