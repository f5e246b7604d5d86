-- ===== src/Link/Session.antt =====
-- The commands of the client's shell over the line, with the master of Link at its other end.
pub mod Speed
pub mod Query
pub mod Echo
pub mod Answers
pub mod Keeps
pub mod Requests
mod Tests
use ammc.Base.{
  ℕ, true, false, ◌+◌, ◌*◌, ◌≤◌, ◌<◌, ◌≡◌, ◌≢◌, ap, ◌∙◌, refl, Option, none, some, List, [], ◌∷◌,
  length, get_or, IsBytes, arith, ltb, ◌==◌,
}
use ammc.Bus.{Bus}
use ammc.Packet.{Packet, com_type, limit, hnd, ack}
use ammc.Packet.Frame.{message, crafted, bytes_of}
use ammc.ComError.{ComError, success}
use ammc.Master.Operations.{Locals}
use ammc.Master.Handler.{Handler}
use ammc.Client.Comm.{Outcome, done, packet_next_id, ◌>>=◌}
use ammc.Client.Commands.{Os, Storage, Message, psend, valid_dev}
use ammc.Client.Commands
use ammc.Link.{master, cleared}
use ammc.Link.Exchange.{resting, served, link_accepts}

module _ (bus : Bus) (locals : Locals) (room : length locals.packet.body ≡ 33)
    (os : Os (Handler bus.World)) (client : Commands.Locals)
    (ready : length client.packet.body ≡ 33) (fd : ℕ) (device : 2 < fd)
    (tty : (w : Handler bus.World) → os.is_tty w fd ≡ true) where
  open bus use {World}

  -- The client with the device open, at the id `g`.
  abbrev pub connected : ℕ → List ℕ → Handler World → List Message → Storage (Handler World)
  connected g unread world printed = record {
    avr_fd = some fd;
    comm = record { tty = true; global_id = g; input = unread; world = world };
    printed = printed;
  }

  pub psend-link :
      (g : ℕ) (world : World) (rx : Packet) (error : ComError) (performed : ℕ) (unread : List ℕ)
      (printed : List Message) (type selector : ℕ) (body : Option (List ℕ))
      → length (bytes_of body) ≤ 27
      → type < com_type limit
      → type ≢ com_type hnd
      → IsBytes (message g type selector (bytes_of body))
      → (rest : List ℕ) × (psend
            (master bus locals)
            os
            client
            (connected g unread (resting bus locals room g world rx error performed) printed)
            type
            selector
            body
            (length (bytes_of body))
          ≡ done (
            0,
            connected
                (packet_next_id g)
                rest
                (cleared bus locals (
                  served bus locals room g world
                    (crafted locals.packet g type selector (bytes_of body))))
                printed,
          ))
  unfolding psend valid_dev
  psend-link g world rx error performed unread printed type selector body fits known other bytes =
      let ((rest, sent), id, state, input) =
        link_accepts bus locals room g world rx error performed client.packet unread type selector
          body ready fits known other bytes in
      let positive : (fd == 0) ≡ false = ground arith in
      let standard : ltb 2 fd ≡ true = ground arith in
      let w = resting bus locals room g world rx error performed in
      (rest, rw (positive, standard, tty w, sent) refl)
