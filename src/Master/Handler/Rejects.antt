-- ===== src/Master/Handler/Rejects.antt =====
-- A whole run of the handler on a packet that is refused.
use ammc.Base.{ℕ, suc, ◌≡◌, refl, ◌∙◌, false, some, List, [], ◌∷◌, ◌++◌, length, arith}
use ammc.Bus.{Bus}
use ammc.Packet.{Packet, com_type, nak}
use ammc.Packet.Frame.{frame}
use ammc.ComError.{ComError, error_code}
use ammc.Master.Comm.{done, recv, is_success}
use ammc.Master.Operations.{Locals}
use ammc.Master.Handler.{receiving, naking, returns, round, rounds, communication_handler}
use ammc.Master.Handler.Runs.{waiting, read, receives, returns_by, reply-frame}

module _ (bus : Bus) (locals : Locals) (room : length locals.packet.body ≡ 33) where
  open bus use {World}

  module _ (g : ℕ) (world : World) (output : List ℕ) where
    pub rejects :
        (fuel : ℕ) (error : ComError) (rx : Packet) (left : List ℕ)
        → rounds bus locals (suc fuel) (read bus locals room g world output naking error rx left)
          ≡ rounds bus locals fuel
              (record (read bus locals room g world output receiving error rx left) {
                comm = record {
                  global_id = 0;
                  port = record {
                    input = left;
                    output = output ++ frame g (com_type nak) (error_code error) [];
                  };
                  world = world;
                };
              })
    unfolding rounds round
    rejects fuel error rx left =
        rw (reply-frame bus locals room _ (com_type nak) (error_code error) (omega arith)) refl

    -- The handler in its receiving state, with bytes that `communication_recv` refuses with an
    -- error when it has read all of them: in three rounds it sends a NAK that has the expected id
    -- and carries the error's code, expects id 0 from then on, and returns.
    pub handler_rejects :
        (error : ComError) (rx : Packet) (b : ℕ) (input : List ℕ)
        → is_success error ≡ false
        → recv g (record { input = b ∷ input; output = output }) locals.packet
          ≡ done error rx (record { input = []; output = output })
        → communication_handler bus locals 3 (waiting bus locals room g world output (b ∷ input))
          ≡ some (
              returns (record (read bus locals room g world output receiving error rx []) {
                comm = record {
                  global_id = 0;
                  port = record {
                    input = [];
                    output = output ++ frame g (com_type nak) (error_code error) [];
                  };
                  world = world;
                };
              }))
    unfolding communication_handler
    handler_rejects error rx b input bad e =
        receives bus locals room g world output 2 error rx b input [] e
        ∙ rw bad (rejects 1 error rx [])
        ∙ returns_by bus locals room _ refl refl
