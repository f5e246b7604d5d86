-- ===== src/Link/Tests.antt =====
-- Examples of the theorems on both programs together.
use ammc.Base.{true, ℕ, ◌≡◌, refl, some, List, [], ◌∷◌, arith}
use ammc.Packet.{com_type, echo, hnd}
use ammc.Packet.Frame.{crafted}
use ammc.ComError.{success}
use ammc.Master.Handler.{receiving}
use ammc.Client.Comm.{done, packet_next_id, craft_and_send, connect}
use ammc.Link.{master, cleared}
use ammc.Link.Exchange.{resting, served, link_accepts, link_connects}
use ammc.Samples.{blank, blank_locals, mirror_bus}

abbrev hi : List ℕ
hi = 104 ∷ 105 ∷ []

link_accepts_example :
    ((rest : List ℕ) × (craft_and_send
          (master mirror_bus blank_locals)
          blank
          (record {
            tty = true;
            global_id = 3;
            input = 9 ∷ [];
            world = resting mirror_bus blank_locals refl 3 [] blank success 0;
          })
          (com_type echo)
          0
          (some hi)
          2
        ≡ done (
          0,
          record {
            tty = true;
            global_id = packet_next_id 3;
            input = rest;
            world =
                cleared mirror_bus blank_locals
                  (served mirror_bus blank_locals refl 3 [] (crafted blank 3 (com_type echo) 0 hi));
          },
        )))
    × ((served mirror_bus blank_locals refl 3 []
          (crafted blank 3 (com_type echo) 0 hi)).comm.global_id
        ≡ packet_next_id 3)
    × ((served mirror_bus blank_locals refl 3 [] (crafted blank 3 (com_type echo) 0 hi)).state
        ≡ receiving)
    × ((served mirror_bus blank_locals refl 3 []
          (crafted blank 3 (com_type echo) 0 hi)).comm.port.input
        ≡ [])
link_accepts_example =
    link_accepts mirror_bus blank_locals refl 3 [] blank success 0 blank (9 ∷ []) (com_type echo) 0
      (some hi) refl (omega arith) (omega arith) (omega arith) (ground arith)

link_connects_example :
    connect (master mirror_bus blank_locals) blank (record {
      tty = true;
      global_id = 77;
      input = 9 ∷ [];
      world = resting mirror_bus blank_locals refl 3 [] blank success 0;
    })
    ≡ done (
      0,
      record {
        tty = true;
        global_id = 1;
        input = [];
        world =
            resting mirror_bus blank_locals refl 1 []
              (crafted blank 0 (com_type hnd) 0 [])
              success
              1;
      },
    )
link_connects_example =
    link_connects mirror_bus blank_locals refl 3 [] blank success 0 blank 77 (9 ∷ []) refl
