-- ===== src/Master/Comm/Mismatch.antt =====
-- A packet with a wrong id leaves its body and checksum in the receive buffer.
use ammc.Base.{ℕ, ◌<◌, ◌≡◌, ◌≢◌, refl, ap, ◌∙◌, List, [], ◌∷◌, append-nil, sym, length, arith}
use ammc.Packet.{Packet, com_type, hnd}
use ammc.ComError.{id_mismatch}
use ammc.Port.{Port}
use ammc.Port.Reads.{read_short}
use ammc.Master.Comm.{done, blocked, header_sanity, recv, is_success}
use ammc.Master.Comm.Receive.{header, recv_header}

-- A packet other than a handshake whose id is not the expected one is refused after its header,
-- and everything behind the header is left to read.
pub recv_mismatch :
    (g id type selector size : ℕ) (tail output : List ℕ) (rx : Packet)
    → id ≢ g
    → type ≢ com_type hnd
    → recv g (record { input = id ∷ type ∷ selector ∷ size ∷ tail; output = output }) rx
      ≡ done id_mismatch
          (header rx id type selector size)
          (record { input = tail; output = output })
recv_mismatch g id type selector size tail output rx ne other =
    ap (λ t. recv g (record { input = id ∷ type ∷ selector ∷ size ∷ t; output = output }) rx)
      (sym (append-nil tail))
    ∙ recv_header g id type selector size tail [] output rx
    ∙ rw refused (
        unfold is_success in
        ap
          (λ t.
            done id_mismatch (header rx id type selector size)
              (record { input = t; output = output }))
          (append-nil tail))
  where
    refused : header_sanity g (header rx id type selector size) ≡ id_mismatch
    refused = unfold header_sanity in ground arith

-- With fewer than four bytes to read `communication_recv` waits for more.
pub recv_waits : (g : ℕ) (p : Port) (rx : Packet) → length p.input < 4 → recv g p rx ≡ blocked
unfolding recv
recv_waits g p rx h = rw (read_short p 4 h, recv) refl
