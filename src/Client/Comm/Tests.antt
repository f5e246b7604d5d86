-- ===== src/Client/Comm/Tests.antt =====
-- Examples of the theorems on the client's communication module.
use ammc.Base.{true, ◌≡◌, [], ◌∷◌, inr, arith}
use ammc.Packet.{com_type, ack}
use ammc.Client.Comm.{overflow, recv_attempt}
use ammc.Client.Comm.Answers.{attempt_unsized}
use ammc.Samples.{blank, same_answer, zeros}

attempt_unsized_example :
    recv_attempt
      (same_answer [])
      (record {
        tty = true;
        global_id = 3;
        input = 3 ∷ com_type ack ∷ 0 ∷ 40 ∷ zeros 36;
        world = 0;
      })
      blank
    ≡ overflow
attempt_unsized_example =
    attempt_unsized (same_answer []) 3 0 blank (com_type ack) 0 40 (zeros 36)
      (inr (omega arith, omega arith))
