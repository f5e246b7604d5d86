-- ===== src/Master/Comm/Tests.antt =====
-- Runs of communication.c, and examples of the theorems on single packets.
use ammc.Base.{ℕ, ◌≡◌, refl, inl, some, List, [], ◌∷◌, ◌++◌, arith}
use ammc.Packet.{Packet, com_type, echo, dat}
use ammc.ComError.{corrupted_checksum}
use ammc.Master.Comm.{recv, send, done, overflow, count_bits}
use ammc.Master.Comm.Receive.{recv_undersized}
use ammc.Master.Comm.Frames.{recv_corrupted, trailer}
use ammc.Master.Comm.Send.{send_dropped}
use ammc.Samples.{blank, zeros}

abbrev hi : List ℕ
hi = 104 ∷ 105 ∷ []

-- Only the low half of each byte is counted.
count_bits_low : count_bits (0xff ∷ 0xf0 ∷ 0x03 ∷ []) 0 ≡ 6
unfolding count_bits
count_bits_low = refl

recv_corrupted_example :
    (rx' : Packet) × (recv 3
        (record {
          input = 3 ∷ 4 ∷ 0 ∷ 7 ∷ 104 ∷ 107 ∷ trailer 3 3 4 0 hi [] [] blank ∷ [];
          output = [];
        })
        blank
      ≡ done corrupted_checksum rx' (record { input = []; output = [] }))
recv_corrupted_example =
    recv_corrupted 3 3 (com_type echo) 0 hi [] [] blank 105 107 (104 ∷ [])
      (trailer 3 3 4 0 hi [] [] blank ∷ []) (inl refl) refl (omega arith) (omega arith)
      (ground arith) refl (omega arith) (omega arith)

recv_undersized_example :
    recv 3 (record { input = 3 ∷ 4 ∷ 0 ∷ 2 ∷ (zeros 34 ++ hi); output = [] }) blank ≡ overflow
recv_undersized_example = recv_undersized 3 3 4 0 2 (zeros 34) hi [] blank (inl refl) (omega arith)

send_dropped_example :
    send blank (record { input = []; output = [] }) 3 (com_type dat) 0 28 (some (zeros 28))
    ≡ record { input = []; output = [] }
send_dropped_example =
    send_dropped blank (record { input = []; output = [] }) 3 (com_type dat) 0 (some (zeros 28))
      refl (omega arith) (omega arith) (omega arith)
