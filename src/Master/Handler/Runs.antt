-- ===== src/Master/Handler/Runs.antt =====
-- Whole runs of the handler: a packet that is accepted, and a handshake.
use ammc.Base.{
  ℕ, suc, ◌≤◌, ◌<◌, ◌≡◌, ◌≢◌, refl, sym, ap, ◌∙◌, not, none, some, List, [], ◌∷◌, ◌++◌, append-nil,
  inl, inr, length, get_or, ◌==◌, ==_ne, if◌then◌else◌, IsBytes, arith,
}
use ammc.Bus.{Bus}
use ammc.Packet.{Packet, com_type, limit, hnd, ack}
use ammc.Packet.Frame.{message, frame, crafted}
use ammc.ComError.{ComError, success}
use ammc.Master.Comm.{done, recv, next_id, is_success}
use ammc.Master.Comm.Frames.{recv-frame}
use ammc.Master.Comm.Send.{send-frame}
use ammc.Master.Operations.{Locals, Comm, reply, operation_table}
use ammc.Master.Handler.{
  State, receiving, shaking, acking, naking, executing, Handler, returns, continues, after_recv,
  run_operation, round, rounds, communication_handler,
}
use ammc.Master.Handler.Keeps.{operation-Keeps}

module _ (bus : Bus) (locals : Locals) (room : length locals.packet.body ≡ 33) where
  open bus use {World}

  -- A packet without a body that the master sends by itself.
  pub reply-frame :
      (m : Comm World) (type selector : ℕ)
      → type < com_type limit
      → reply bus locals m type selector 0 none ≡ record m {
        port = record m.port { output = m.port.output ++ frame m.global_id type selector [] };
      }
  unfolding reply
  reply-frame m type selector known =
      ap (λ p. record m { port = p })
        (send-frame locals.packet m.port m.global_id type selector none room known (omega arith))

  continue_by :
      (fuel : ℕ) (h h' : Handler World)
      → round bus locals h.state h ≡ continues h'
      → rounds bus locals (suc fuel) h ≡ rounds bus locals fuel h'
  unfolding rounds
  continue_by fuel h h' e = rw (e, rounds) refl

  -- With nothing more to read the handler returns.
  pub returns_by :
      (h : Handler World)
      → h.state ≡ receiving
      → h.comm.port.input ≡ []
      → rounds bus locals 1 h ≡ some (returns h)
  unfolding rounds round
  returns_by h e none_left = rw (e, none_left) refl

  -- A handshake has no entry in the table.
  no_operation :
      (h : Handler World)
      → run_operation bus locals h (get_or (operation_table bus locals) (com_type hnd) none)
        ≡ record h { state = receiving }
  unfolding run_operation operation_table
  no_operation h = refl

  module _ (g : ℕ) (world : World) (output : List ℕ) where
    -- The handler in its receiving state, with bytes to read.
    abbrev pub waiting : List ℕ → Handler World
    waiting input = record {
      state = receiving;
      comm = record {
        global_id = g;
        port = record { input = input; output = output };
        world = world;
      };
      rx = locals.packet;
      error = success;
      action_performed = 0;
    }

    -- The handler behind the acknowledgement of a packet.
    abbrev pub acknowledged : ℕ → Packet → Handler World
    acknowledged id rx = record {
      state = executing;
      comm = record {
        global_id = next_id id;
        port = record { input = []; output = output ++ frame id (com_type ack) 0 [] };
        world = world;
      };
      rx = rx;
      error = success;
      action_performed = 1;
    }

    -- The handler behind a packet that was read.
    abbrev pub read : State → ComError → Packet → List ℕ → Handler World
    read state error rx input = record {
      state = state;
      comm = record {
        global_id = g;
        port = record { input = input; output = output };
        world = world;
      };
      rx = rx;
      error = error;
      action_performed = 1;
    }

    pub receives :
        (fuel : ℕ) (error : ComError) (rx : Packet) (b : ℕ) (input left : List ℕ)
        → recv g (record { input = b ∷ input; output = output }) locals.packet
          ≡ done error rx (record { input = left; output = output })
        → rounds bus locals (suc fuel) (waiting (b ∷ input))
          ≡ rounds bus locals fuel (
              read
                (if not (is_success error)
                  then naking
                  else if rx.type == com_type hnd
                  then shaking
                  else acking)
                error
                rx
                left)
    receives fuel error rx b input left e =
        continue_by fuel (waiting (b ∷ input)) _
          (entered ∙ ap (after_recv bus locals (waiting (b ∷ input))) e ∙ read_lem)
      where
        entered :
            round bus locals receiving (waiting (b ∷ input))
            ≡ after_recv bus locals
                (waiting (b ∷ input))
                (recv g (record { input = b ∷ input; output = output }) locals.packet)
        entered = unfold round in rw ((==_ne (suc (length input)) 0).1 (omega arith)) refl

        read_lem :
            after_recv bus locals
              (waiting (b ∷ input))
              (done error rx (record { input = left; output = output }))
            ≡ continues (
                read
                  (if not (is_success error)
                    then naking
                    else if rx.type == com_type hnd
                    then shaking
                    else acking)
                  error
                  rx
                  left)
        read_lem = unfold after_recv in refl

    acknowledges :
        (fuel id : ℕ) (rx : Packet)
        → rounds bus locals (suc fuel) (record (read acking success rx []) {
          comm = record {
            global_id = id;
            port = record { input = []; output = output };
            world = world;
          };
        })
          ≡ rounds bus locals fuel (acknowledged id rx)
    unfolding rounds round
    acknowledges fuel id rx = rw (reply-frame _ (com_type ack) 0 (omega arith)) refl

    -- The last rounds: the operation of the packet's type, and no more input.
    operates :
        (id : ℕ) (rx : Packet)
        → rounds bus locals 2 (acknowledged id rx)
          ≡ some (
              returns (
                run_operation bus locals
                  (acknowledged id rx)
                  (get_or (operation_table bus locals) rx.type none)))
    unfolding rounds round
    operates id rx =
        let (state, input, _, _) = operation-Keeps bus locals rx.type (acknowledged id rx) in
        returns_by _ state input

    -- The handler in its receiving state, with exactly a frame to read that has the expected id, a
    -- known type other than the handshake, and a body of at most 32 bytes: in four rounds it sends
    -- an acknowledgement with that id, goes on to the next id, performs the operation that the
    -- table has for the type, on the packet as it was sent, and returns.
    pub handler_accepts :
        (type selector : ℕ) (body : List ℕ)
        → length body ≤ 32
        → type < com_type limit
        → type ≢ com_type hnd
        → IsBytes (message g type selector body)
        → communication_handler bus locals 4 (waiting (frame g type selector body))
          ≡ some (
              returns (
                run_operation bus locals
                  (acknowledged g (crafted locals.packet g type selector body))
                  (get_or (operation_table bus locals) type none)))
    unfolding communication_handler
    handler_accepts type selector body fits known other bytes =
        receives 3 success (crafted locals.packet g type selector body) g _ [] (
          ap (λ t. recv g (record { input = t; output = output }) locals.packet)
            (sym (append-nil (frame g type selector body)))
          ∙ recv-frame g g type selector body [] output locals.packet (inl refl) room fits known
              bytes)
        ∙ rw ((==_ne type 1).1 other)
            (unfold is_success in acknowledges 2 g (crafted locals.packet g type selector body))
        ∙ operates g (crafted locals.packet g type selector body)

    -- The handler in its receiving state, with exactly a handshake of id 0 and a body of at most 32
    -- bytes to read, whatever the id that it expects: in five rounds it is acknowledged with id 0,
    -- the master then expects id 1, is in its receiving state, and returns.
    pub handler_handshake :
        (selector : ℕ) (body : List ℕ)
        → length body ≤ 32
        → IsBytes (message 0 (com_type hnd) selector body)
        → communication_handler bus locals 5 (waiting (frame 0 (com_type hnd) selector body))
          ≡ some (
              returns
                (record (acknowledged 0 (crafted locals.packet 0 (com_type hnd) selector body)) {
                  state = receiving;
                }))
    unfolding communication_handler
    handler_handshake selector body fits bytes =
        receives 4 success (crafted locals.packet 0 (com_type hnd) selector body) 0 _ [] (
          ap (λ t. recv g (record { input = t; output = output }) locals.packet)
            (sym (append-nil (frame 0 (com_type hnd) selector body)))
          ∙ recv-frame g 0 (com_type hnd) selector body [] output locals.packet (inr (refl, refl))
              room fits (omega arith) bytes)
        ∙ unfold is_success rounds round in
          (acknowledges 2 0 (crafted locals.packet 0 (com_type hnd) selector body))
          ∙ operates 0 (crafted locals.packet 0 (com_type hnd) selector body)
          ∙ ap (λ h. some (returns h)) (no_operation _)
