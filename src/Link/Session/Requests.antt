-- ===== src/Link/Session/Requests.antt =====
-- Sequences of the client's commands that set something, over the line: both programs agree after each of them.
use ammc.Base.{
  ℕ, ◌<◌, ◌≡◌, ◌/◌, ◌%◌, ap, ◌∙◌, refl, true, false, none, some, List, [], ◌∷◌, length, arith, ◌==◌,
  ◌||◌, leb, ==_ne, All, Bool-cases, inl, inr,
}
use ammc.Bus.{Bus}
use ammc.Packet.{com_type, apply, set_speed, set_slave_addr}
use ammc.Master.Operations.{Locals, operation_table, op_set_speed, op_apply, op_set_slave_addr}
use ammc.Master.Handler.{Handler, run_operation}
use ammc.Client.Comm.{Outcome, done, ◌>>=◌}
use ammc.Client.Scan.{sscanf_assignment, sscanf_integer_byte}
use ammc.Client.Commands.{
  Os, Storage, Message, echoed, speed_of, slave_available, slave_unreachable,
}
use ammc.Client.Commands
use ammc.Client.Commands.Settings.{set_motor_speed, apply_speeds, set_address}
use ammc.Link.{master}
use ammc.Link.Session.Keeps.{Agreed, storage, psend-keeps}

-- A line of the shell, by its command, of those that the master only acknowledges: the words
-- behind the command's name.
pub data Request : Type 0 where
  asks_speed asks_apply asks_address : (words : List (List ℕ)) → Request

-- The words that the commands accept.
abbrev pub Legal : Request → Type 0
Legal (asks_speed words) =
    (text : List ℕ) × (motor : ℕ) × (speed : ℕ) × (words ≡ text ∷ [])
    × (sscanf_assignment text ≡ motor ∷ speed ∷ [])
    × (0 < motor)
    × (motor < 256)
Legal (asks_apply words) = words ≡ []
Legal (asks_address words) =
    (now : List ℕ) × (next : List ℕ) × (from : ℕ) × (to : ℕ) × (words ≡ now ∷ next ∷ [])
    × (sscanf_integer_byte now ≡ from ∷ [])
    × (sscanf_integer_byte next ≡ to ∷ [])
    × (0 < from)
    × (from < 127)
    × (0 < to)
    × (to < 127)

-- As many codes 0 as commands.
abbrev pub all_zero : List Request → List ℕ
all_zero [] = []
all_zero (r ∷ rs) = 0 ∷ all_zero rs

module _ (bus : Bus) (locals : Locals) (room : length locals.packet.body ≡ 33) where
  open bus use {World}

  module _ (os : Os (Handler World)) (client : Commands.Locals) where
    unfoldable pub request :
        Request → Storage (Handler World) → Outcome (ℕ × Storage (Handler World))
    request (asks_speed words) st = set_motor_speed (master bus locals) os client ([] ∷ words) st
    request (asks_apply words) st = apply_speeds (master bus locals) os client ([] ∷ words) st
    request (asks_address words) st = set_address (master bus locals) os client ([] ∷ words) st

    -- The codes that the commands return, one after the other.
    unfoldable pub requests :
        List Request → Storage (Handler World) → Outcome (List ℕ × Storage (Handler World))
    requests [] st = done ([], st)
    requests (r ∷ rs) st = request r st >>= λ (code, st').
        requests rs st' >>= λ (codes, last). done (code ∷ codes, last)

    module _ (ready : length client.packet.body ≡ 33) (rx_room : length client.pack_rx.body ≡ 33)
        (fd : ℕ) (device : 2 < fd) (tty : (w : Handler World) → os.is_tty w fd ≡ true) where
      abbrev Agree : Type 0
      Agree = Agreed bus locals room os client ready rx_room fd device tty

      abbrev at : Agree → Storage (Handler World)
      at = storage bus locals room os client ready rx_room fd device tty

      address-Agreed :
          (now next : List ℕ) (from to : ℕ) (a : Agree)
          → sscanf_integer_byte now ≡ from ∷ []
          → sscanf_integer_byte next ≡ to ∷ []
          → 0 < from
          → from < 127
          → 0 < to
          → to < 127
          → (a' : Agree) × (set_address (master bus locals) os client ([] ∷ now ∷ next ∷ []) (at a)
              ≡ done (0, at a'))
      unfolding set_address run_operation operation_table op_set_slave_addr
      address-Agreed now next from to a from_text to_text from_in from_out to_in to_out =
          let legal : (from == 0 || to == 0 || leb 127 from || leb 127 to) ≡ false = ground arith in
          let (a', sent) =
            psend-keeps bus locals room os client ready rx_room fd device tty a
              (com_type set_slave_addr) from (some (to ∷ [])) (omega arith) (omega arith)
              (omega arith)
              (a.small, (omega arith, (omega arith, (omega arith, (omega arith, tt))))) refl in
          elim (Bool-cases (from == to)) [
            | inl same ↦ (a, rw (from_text, to_text, legal, same) refl)
            | inr other ↦ (a', rw (from_text, to_text, legal, other, sent) refl)
          ]

      request-Agreed :
          (r : Request) (a : Agree) → Legal r → (a' : Agree) × (request r (at a) ≡ done (0, at a'))
      unfolding request set_motor_speed apply_speeds set_address run_operation operation_table
          op_set_speed op_apply
      request-Agreed (asks_speed words) a (text, motor, speed, only, scanned, positive, byte) =
          let (a', sent) =
            psend-keeps bus locals room os client ready rx_room fd device tty a (com_type set_speed)
              motor (some (speed % 256 ∷ speed / 256 % 256 ∷ [])) (omega arith) (omega arith)
              (omega arith)
              (a.small, (omega arith, (byte, (omega arith, (omega arith, (omega arith, tt))))))
              refl in
          (a', rw (only, scanned, (==_ne motor 0).1 (omega arith), sent) refl)
      request-Agreed (asks_apply words) a only =
          let (a', sent) =
            psend-keeps bus locals room os client ready rx_room fd device tty a (com_type apply) 0
              none (omega arith) (omega arith) (omega arith)
              (a.small, (omega arith, (omega arith, (omega arith, tt)))) refl in
          (a', rw (only, sent) refl)
      request-Agreed (asks_address words) a
            (now, next, from, to, only, from_text, to_text, from_in, from_out, to_in, to_out) =
          let (a', sent) =
            address-Agreed now next from to a from_text to_text from_in from_out to_in to_out in
          (a', ap (λ ws. set_address (master bus locals) os client ([] ∷ ws) (at a)) only ∙ sent)

      -- The client has the device open, the master rests, both are at the same id, a byte, and neither
      -- has anything left to read. Then any sequence of the commands set-speed, apply and
      -- set-slave-addr, with words that they accept, leads to such a state again, and each of the
      -- commands returns 0, whatever the slaves make of what reaches them.
      pub requests-Agreed :
          (rs : List Request) (a : Agree)
          → All Legal rs
          → (a' : Agree) × (requests rs (at a) ≡ done (all_zero rs, at a'))
      unfolding requests
      requests-Agreed [] a legal = (a, refl)
      requests-Agreed (r ∷ rs) a legal =
          let (mid, one) = request-Agreed r a legal.0 in
          let (last, others) = requests-Agreed rs mid legal.1 in
          (last, rw (one, requests, others) refl)
