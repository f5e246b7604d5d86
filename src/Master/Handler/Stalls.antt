-- ===== src/Master/Handler/Stalls.antt =====
-- What the handler does behind a packet with a wrong id.
use ammc.Base.{
  ℕ, ◌<◌, ◌≡◌, ◌≢◌, refl, ap, ◌∙◌, some, List, [], ◌∷◌, length, length-zero, ==_ne, arith,
}
use ammc.Bus.{Bus}
use ammc.Packet.{com_type, hnd}
use ammc.ComError.{id_mismatch}
use ammc.Master.Comm.{is_success}
use ammc.Master.Comm.Receive.{header}
use ammc.Master.Comm.Mismatch.{recv_mismatch, recv_waits}
use ammc.Master.Operations.{Locals}
use ammc.Master.Handler.{
  Handler, receiving, waits, after_recv, round, rounds, communication_handler,
}
use ammc.Master.Handler.Runs.{waiting, receives}
use ammc.Master.Handler.Rejects.{rejects}

module _ (bus : Bus) (locals : Locals) (room : length locals.packet.body ≡ 33) where
  open bus use {World}

  waits_by :
      (h : Handler World)
      → h.state ≡ receiving
      → h.comm.port.input ≢ []
      → length h.comm.port.input < 4
      → rounds bus locals 1 h ≡ some waits
  unfolding rounds
  waits_by h e some_left short = rw (ap (λ st. round bus locals st h) e ∙ stalled, rounds) refl
    where
      nonzero : length h.comm.port.input ≢ 0
      nonzero z = some_left (length-zero h.comm.port.input z)

      stalled : round bus locals receiving h ≡ waits
      stalled =
          unfold round after_recv in
          rw
            (
              (==_ne (length h.comm.port.input) 0).1 nonzero,
              recv_waits h.comm.global_id h.comm.port h.rx short,
            )
            refl

  -- A packet with a wrong id, other than a handshake, that has one to three bytes behind its
  -- header (a checksum, and a body of two bytes at most) makes the handler wait for bytes that the
  -- packet does not have: it takes what is left of the packet for the next one's header.
  pub handler_stalls :
      (g id type selector size b : ℕ) (world : World) (tail output : List ℕ)
      → id ≢ g
      → type ≢ com_type hnd
      → length tail < 3
      → communication_handler bus locals 3
          (waiting bus locals room g world output (id ∷ type ∷ selector ∷ size ∷ b ∷ tail))
        ≡ some waits
  unfolding communication_handler
  handler_stalls g id type selector size b world tail output ne other short =
      receives bus locals room g world output 2 id_mismatch
        (header locals.packet id type selector size) id (type ∷ selector ∷ size ∷ b ∷ tail)
        (b ∷ tail) (recv_mismatch g id type selector size (b ∷ tail) output locals.packet ne other)
      ∙ unfold is_success in
        rejects bus locals room g world output 1 id_mismatch
          (header locals.packet id type selector size) (b ∷ tail)
        ∙ waits_by _ refl (λ z. cc) (omega arith)
