-- ===== src/Client/Commands/Queries.antt =====
-- client/source/shell_commands.c: dev-echo, ping and get-speed, which print what the master answers.
use ammc.Base.{
  ℕ, ◌+◌, not, ◌||◌, none, some, List, [], ◌∷◌, length, get_or, set, ltb, leb, ◌==◌, if◌then◌else◌,
  u8,
}
use ammc.Packet.{Packet, com_type, echo, ping, get_speed, body_max_len, sizeof_header, sizeof_crc}
use ammc.ComError.{error_code, success, slave_not_found}
use ammc.Client.Comm.{Line, Outcome, done, overflow, ◌>>=◌}
use ammc.Client.Scan.{atoi, sscanf_byte}
use ammc.Client.EchoString.{prepare_echo_string}
use ammc.Client.Commands.{
  Os, echoed, slave_available, slave_unreachable, unexpected, speed_of, Storage, Locals,
  slave_id_limit, is_closed, word, printing, psend, precv,
}

-- The characters before the null character, as `puts` prints them.
unfoldable pub cstring : List ℕ → List ℕ
cstring [] = []
cstring (c ∷ cs) = if c == 0 then [] else c ∷ cstring cs

module _ (line : Line) (os : Os line.World) (locals : Locals) where
  open line use {World}
  open locals use {packet, pack_rx, str}

  -- `dev_echo` behind the answer of the master.
  unfoldable pub echo_answer : ℕ → Packet → Storage World → ℕ × Storage World
  echo_answer str_len p st =
      if not (p.size == u8 (sizeof_header + str_len + sizeof_crc))
      then (2, st)
      else (0, printing line os locals st (echoed (cstring (set p.body str_len 0))))

  unfoldable pub echo_string : List ℕ → ℕ → Storage World → Outcome (ℕ × Storage World)
  echo_string text str_len st =
      if ltb body_max_len str_len
      then done (2, st)
      else (psend line os locals st (com_type echo) 0 (some text) str_len >>= λ (code, sent).
          if not (code == 0)
          then done (3, sent)
          else (precv line os locals sent >>= λ (ret, p, received).
              if not (ret == 0) then done (3, received) else done (echo_answer str_len p received)))

  unfoldable pub dev_echo : List (List ℕ) → Storage World → Outcome (ℕ × Storage World)
  dev_echo argv st =
      if ltb (length argv) 2
      then done (1, st)
      else if is_closed st.avr_fd
      then done (2, st)
      else elim (prepare_echo_string str argv) [
        | none ↦ overflow
        | some (text, str_len) ↦ echo_string text str_len st
      ]

  -- The `switch` of `ping`.
  unfoldable pub ping_answer : ℕ → Packet → Storage World → ℕ × Storage World
  ping_answer slave_id p st =
      if p.selector == error_code success
      then (0, printing line os locals st (slave_available (u8 slave_id)))
      else if p.selector == error_code slave_not_found
      then (0, printing line os locals st (slave_unreachable (u8 slave_id)))
      else (3, printing line os locals st (unexpected p.selector))

  unfoldable pub ping_slave : List (List ℕ) → Storage World → Outcome (ℕ × Storage World)
  ping_slave argv st =
      let slave_id = atoi (word argv 1) in
      if not (length argv == 2)
      then done (1, st)
      else if is_closed st.avr_fd
      then done (2, st)
      else if slave_id == 0 || ltb 127 slave_id
      then done (2, st)
      else (psend line os locals st (com_type ping) (u8 slave_id) none 0 >>= λ (code, sent).
          if not (code == 0)
          then done (3, sent)
          else (precv line os locals sent >>= λ (ret, p, received).
              if not (ret == 0)
              then done (3, received)
              else done (ping_answer slave_id p received)))

  -- `get_speed`: the byte at the start of the body is what is printed.
  unfoldable pub get_motor_speed : List (List ℕ) → Storage World → Outcome (ℕ × Storage World)
  get_motor_speed argv st =
      let values = sscanf_byte (word argv 1) in
      let motor_id = get_or values 0 0 in
      if not (length argv == 2)
      then done (1, st)
      else if is_closed st.avr_fd
      then done (2, st)
      else if not (length values == 1) || leb slave_id_limit (length values)
      then done (1, st)
      else if motor_id == 0
      then done (1, st)
      else (psend line os locals st (com_type get_speed) motor_id none 0 >>= λ (code, sent).
          if not (code == 0)
          then done (3, sent)
          else (precv line os locals sent >>= λ (ret, p, received).
              if not (ret == 0)
              then done (3, received)
              else done
                  (0, printing line os locals received (speed_of motor_id (get_or p.body 0 0)))))
