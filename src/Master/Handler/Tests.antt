-- ===== src/Master/Handler/Tests.antt =====
-- Examples of the theorems on the handler.
use ammc.Base.{ℕ, suc, ◌≡◌, refl, some, List, [], ◌∷◌, arith}
use ammc.Packet.{Packet, com_type, nak, ping}
use ammc.Packet.Frame.{frame}
use ammc.ComError.{id_mismatch, error_code}
use ammc.Master.Comm.{is_success}
use ammc.Master.Comm.Receive.{header}
use ammc.Master.Comm.Mismatch.{recv_mismatch}
use ammc.Master.Handler.{Handler, Round, returns, waits, receiving, communication_handler}
use ammc.Master.Handler.Steps.{handler_terminates, measure, Ends}
use ammc.Master.Handler.Runs.{waiting, read}
use ammc.Master.Handler.Rejects.{handler_rejects}
use ammc.Master.Handler.Stalls.{handler_stalls}
use ammc.Samples.{blank, blank_locals, mirror_bus}

abbrev hi : List ℕ
hi = 104 ∷ 105 ∷ []

abbrev with_input : ℕ → List ℕ → Handler (List ℕ)
with_input g input = waiting mirror_bus blank_locals refl g [] [] input

handler_terminates_example :
    (r : Round (List ℕ)) × (communication_handler mirror_bus blank_locals
        (suc (measure mirror_bus blank_locals (with_input 3 (1 ∷ 2 ∷ 3 ∷ 4 ∷ 5 ∷ []))))
        (with_input 3 (1 ∷ 2 ∷ 3 ∷ 4 ∷ 5 ∷ []))
      ≡ some r)
    × Ends mirror_bus blank_locals r
handler_terminates_example =
    handler_terminates mirror_bus blank_locals (with_input 3 (1 ∷ 2 ∷ 3 ∷ 4 ∷ 5 ∷ [])) (omega arith)

-- A packet of a header alone, with a wrong id.
abbrev lost : Packet
lost = header blank 8 (com_type ping) 5 4

handler_rejects_example :
    communication_handler mirror_bus blank_locals 3 (with_input 3 (8 ∷ com_type ping ∷ 5 ∷ 4 ∷ []))
    ≡ some (
        returns (record (read mirror_bus blank_locals refl 3 [] [] receiving id_mismatch lost []) {
          comm = record {
            global_id = 0;
            port = record {
              input = [];
              output = frame 3 (com_type nak) (error_code id_mismatch) [];
            };
            world = [];
          };
        }))
unfolding is_success
handler_rejects_example =
    handler_rejects mirror_bus blank_locals refl 3 [] [] id_mismatch lost 8
      (com_type ping ∷ 5 ∷ 4 ∷ []) refl
      (recv_mismatch 3 8 (com_type ping) 5 4 [] [] blank (omega arith) (omega arith))

handler_stalls_example :
    communication_handler mirror_bus blank_locals 3
      (with_input 3 (8 ∷ com_type ping ∷ 5 ∷ 5 ∷ 77 ∷ []))
    ≡ some waits
handler_stalls_example =
    handler_stalls mirror_bus blank_locals refl 3 8 (com_type ping) 5 5 77 [] [] [] (omega arith)
      (omega arith) (omega arith)
