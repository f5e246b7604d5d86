-- ===== src/Link/Session/Echo.antt =====
-- The command dev-echo of the client, and the master's echo operation.
use ammc.Base.{
  true, false, ℕ, ◌+◌, ◌≤◌, ◌<◌, ◌≡◌, ap, ◌∙◌, refl, some, List, [], ◌∷◌, ◌++◌, length, take, set,
  IsBytes, All, arith, ==_ne, inl, inr, ltb, ◌==◌, u8,
}
use mathlib.Core.Path.{subst}
use ammc.Bus.{Bus}
use ammc.Packet.{Packet, com_type, ack, dat, echo}
use ammc.Packet.Frame.{frame, crafted}
use ammc.ComError.{ComError, success}
use ammc.Master.Comm.{next_id}
use ammc.Master.Operations.{Locals, operation_table, op_echo}
use ammc.Master.Operations.Replies.{op_echo_lem}
use ammc.Master.Handler.{Handler, run_operation}
use ammc.Client.Comm.{done, packet_next_id, craft_and_send}
use ammc.Client.Commands.{Os, Storage, Message, echoed, psend, precv, valid_dev, is_zero}
use ammc.Client.Commands.Queries.{cstring, echo_answer, echo_string, dev_echo}
use ammc.Client.Commands
use ammc.Client.EchoString.Fits.{prepare_echo_string-IsJoined, join}
use ammc.Link.{master}
use ammc.Link.Exchange.{served}
use ammc.Link.Answer.{craft-prefix}
use ammc.Link.Session.Query.{answering, session, psend-query, precv-dat}

-- The characters of a string, which are bytes and not null.
abbrev pub IsText : List ℕ → Type 0
IsText = All (λ c. (0 < c) × (c < 256))

IsText-IsBytes : (text : List ℕ) → IsText text → IsBytes text
IsText-IsBytes [] is = tt
IsText-IsBytes (c ∷ text) is = (is.0.1, IsText-IsBytes text is.1)

cstring-set :
    (text rest : List ℕ) (c : ℕ)
    → IsText text
    → cstring (set (text ++ c ∷ rest) (length text) 0) ≡ text
unfolding cstring
cstring-set [] rest c is = refl
cstring-set (d ∷ text) rest c is =
    rw ((==_ne d 0).1 (omega (arith, is.0.0))) (ap (λ t. d ∷ t) (cstring-set text rest c is.1))

module _ (bus : Bus) (locals : Locals) (room : length locals.packet.body ≡ 33) where
  open bus use {World}

  served-echo :
      (g : ℕ) (world : World) (text : List ℕ)
      → length text ≤ 27
      → let p = crafted locals.packet g (com_type echo) 0 text in
        served bus locals room g world p ≡ answering bus locals room g world p 0 text
  unfolding run_operation operation_table packet_next_id next_id op_echo
  served-echo g world text short =
      ap
        (λ comm.
          record (answering bus locals room g world (crafted locals.packet g (com_type echo) 0 text)
            0 text) { comm = comm })
        (op_echo_lem bus locals room _ locals.packet g 0 text short)

  module _ (os : Os (Handler World)) (client : Commands.Locals)
      (ready : length client.packet.body ≡ 33) (rx_room : length client.pack_rx.body ≡ 33) (fd : ℕ)
      (device : 2 < fd) (tty : (w : Handler World) → os.is_tty w fd ≡ true) where
    abbrev at : ℕ → List ℕ → World → Packet → ComError → ℕ → List Message → Storage (Handler World)
    at = session bus locals room os client ready rx_room fd device tty

    -- The string is sent from the front of the array that it lies in.
    psend-prefix :
        (st : Storage (Handler World)) (type selector : ℕ) (text dest : List ℕ)
        → take (length text) dest ≡ text
        → psend (master bus locals) os client st type selector (some dest) (length text)
          ≡ psend (master bus locals) os client st type selector (some text) (length text)
    unfolding psend craft_and_send
    psend-prefix st type selector text dest front =
        rw (craft-prefix client.packet st.comm.global_id type selector dest text front) refl

    echo_answer-text :
        (st : Storage (Handler World)) (g : ℕ) (text : List ℕ)
        → length text ≤ 27
        → IsText text
        → echo_answer
            (master bus locals)
            os
            client
            (length text)
            (crafted client.pack_rx g (com_type dat) 0 text)
            st
          ≡ (0, record st { printed = st.printed ++ echoed text ∷ [] })
    unfolding echo_answer
    echo_answer-text st g text short is =
        let sized : (5 + length text == u8 (4 + length text + 1)) ≡ true = ground arith in
        rw (sized, cstring-set text _ _ is) refl

    module _ (g : ℕ) (world : World) (text : List ℕ) (small : g < 256) (short : length text ≤ 27)
        (is : IsText text) where
      echo_string-link :
          (rx : Packet) (error : ComError) (performed : ℕ) (unread : List ℕ)
          (printed : List Message) (dest : List ℕ)
          → take (length text) dest ≡ text
          → let next = packet_next_id g in
            echo_string
              (master bus locals)
              os
              client
              dest
              (length text)
              (at g unread world rx error performed printed)
            ≡ done (
              0,
              at
                  (packet_next_id next)
                  (frame next (com_type ack) 0 [])
                  world
                  (crafted locals.packet next (com_type ack) 0 [])
                  success
                  1
                  (printed ++ echoed text ∷ []),
            )
      unfolding echo_string
      echo_string-link rx error performed unread printed dest front =
          let next : packet_next_id g < 256 = unfold packet_next_id in omega arith in
          let fits : ltb 32 (length text) ≡ false = ground arith in
          let bytes = IsText-IsBytes text is in
          rw
            (
              fits,
              psend-prefix (at g unread world rx error performed printed) (com_type echo) 0 text
                  dest front,
              psend-query bus locals room os client ready rx_room fd device tty g world rx error
                  performed printed small unread (com_type echo) 0 (some text) world 0 text
                  (omega arith) (omega arith) (omega arith)
                  (small, (omega arith, (omega arith, (omega arith, bytes))))
                  (served-echo g world text short),
              precv-dat bus locals room os client ready rx_room fd device tty (packet_next_id g)
                  world (crafted locals.packet g (com_type echo) 0 text) success 1 printed next 0
                  text (omega arith) (omega arith) bytes,
              echo_answer-text _ (packet_next_id g) text short is,
            )
            refl

      -- The client has the device open; the master rests at the same id, a byte. The words of
      -- `dev-echo` behind its name, with a blank between them, are a text of at most 27 bytes, none
      -- of them null. Then the command returns 0 and has printed the text, as it came back from the
      -- master; the bus is as it was, the master rests, and both programs are at the same id, two ids
      -- further, because the master acknowledges the client's acknowledgement, too.
      pub dev_echo-link :
          (rx : Packet) (error : ComError) (performed : ℕ) (unread : List ℕ)
          (printed : List Message) (name word : List ℕ) (words : List (List ℕ))
          → length client.str ≡ 31
          → join [] (word ∷ words) ≡ text
          → let next = packet_next_id g in
            dev_echo
              (master bus locals)
              os
              client
              (name ∷ word ∷ words)
              (at g unread world rx error performed printed)
            ≡ done (
              0,
              at
                  (packet_next_id next)
                  (frame next (com_type ack) 0 [])
                  world
                  (crafted locals.packet next (com_type ack) 0 [])
                  success
                  1
                  (printed ++ echoed text ∷ []),
            )
      unfolding dev_echo
      dev_echo-link rx error performed unread printed name word words str_room joined =
          let (dest, code, run, (sized, outcome)) =
            prepare_echo_string-IsJoined client.str (name ∷ word ∷ words) str_room in
          elim outcome [
            | inl (long, _) ↦ absurd (omega (arith, long, ap length joined))
            | inr (_, same, front) ↦
                let whole : code ≡ length text = same ∙ ap length joined in
                let two : ltb (length (name ∷ word ∷ words)) 2 ≡ false = ground arith in
                rw (two, run, whole)
                  (echo_string-link rx error performed unread printed dest
                    (subst (λ t. take (length t) dest ≡ t) joined front))
          ]
