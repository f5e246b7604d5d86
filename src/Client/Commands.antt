-- ===== src/Client/Commands.antt =====
-- client/source/shell_commands.c: what the commands that talk to the master share, connect and
-- disconnect; Queries and Settings have the others. A command gets its words (`argv`, of which `argc`
-- is the length) and the storage, and gives its code. What it prints is kept as a list of messages;
-- error messages are left out.
pub mod Queries
pub mod Settings
mod Tests
use ammc.Base.{
  ℕ, Bool, true, false, not, ◌&&◌, Option, none, some, List, [], ◌∷◌, ◌++◌, length, get_or, ltb,
  ◌==◌, if◌then◌else◌,
}
use ammc.Packet.{Packet}
use ammc.Client.Comm.{Line, Comm, Outcome, done, ◌>>=◌, craft_and_send, recv}
use ammc.Client.Comm

-- The operating system: `open` with the settings of a terminal, `isatty`, and `close`. A descriptor
-- that could not be opened is `none`; a code other than 0 is a failure.
pub record Os (World : Type 0) : Type 0 where
  pub open_dev : World → List ℕ → Option ℕ × World
  pub is_tty : World → ℕ → Bool
  pub close_dev : World → ℕ → ℕ × World

pub data Message : Type 0 where
  echoed : List ℕ → Message
  slave_available slave_unreachable unexpected : ℕ → Message
  speed_of : ℕ → ℕ → Message

-- `shell_storage_t`, with the state of the communication module and what was printed. The
-- descriptor -1 is `none`.
pub record Storage (World : Type 0) : Type 0 where
  pub avr_fd : Option ℕ
  pub comm : Comm World
  pub printed : List Message

-- The local variables of the functions below, before they are written.
pub record Locals : Type 0 where
  pub packet : Packet
  pub pack_rx : Packet
  pub str : List ℕ

abbrev pub slave_id_limit : ℕ
slave_id_limit = 127

abbrev pub is_closed : Option ℕ → Bool
is_closed none = true
is_closed (some fd) = false

-- `AVR_FD > 0`
abbrev pub is_positive : Option ℕ → Bool
is_positive none = false
is_positive (some fd) = not (fd == 0)

abbrev pub is_zero : Option ℕ → Bool
is_zero none = false
is_zero (some fd) = fd == 0

abbrev pub word : List (List ℕ) → ℕ → List ℕ
word argv i = get_or argv i []

module _ (line : Line) (os : Os line.World) (locals : Locals) where
  open line use {World}
  open os use {open_dev, is_tty, close_dev}
  open locals use {packet, pack_rx, str}

  -- `valid_dev`
  unfoldable pub valid_dev : World → Option ℕ → Bool
  valid_dev w none = false
  valid_dev w (some fd) = ltb 2 fd && is_tty w fd

  -- The communication module as it is called with the storage's descriptor.
  abbrev pub opened : Storage World → Comm World
  opened st = record st.comm { tty = valid_dev st.comm.world st.avr_fd }

  abbrev pub printing : Storage World → Message → Storage World
  printing st m = record st { printed = st.printed ++ m ∷ [] }

  -- `psend` and `precv`; a descriptor 0 is refused.
  unfoldable pub psend : Storage World → ℕ → ℕ → Option (List ℕ) → ℕ → Outcome (ℕ × Storage World)
  psend st type selector bytes size =
      if is_zero st.avr_fd
      then done (1, st)
      else (craft_and_send line packet (opened st) type selector bytes size >>= λ (code, c).
          done (code, record st { comm = c }))

  unfoldable pub precv : Storage World → Outcome (ℕ × Packet × Storage World)
  precv st =
      if is_zero st.avr_fd
      then done (1, pack_rx, st)
      else (recv line packet (opened st) pack_rx >>= λ (code, p, c).
          done (code, p, record st { comm = c }))

  -- `serial_open` and `serial_close`
  unfoldable pub serial_open : World → List ℕ → Option ℕ × World
  serial_open w [] = (some 1, w)
  serial_open w (c ∷ cs) = open_dev w (c ∷ cs)

  unfoldable pub serial_close : World → Option ℕ → ℕ × World
  serial_close w none = (1, w)
  serial_close w (some fd) = if not (valid_dev w (some fd)) then (1, w) else close_dev w fd

  -- `connect` behind the opening.
  unfoldable pub handshake : Storage World → Outcome (ℕ × Storage World)
  handshake st =
      if is_zero st.avr_fd
      then done (3, record st { comm = record st.comm { global_id = 0 } })
      else (Comm.connect line packet (opened st) >>= λ (code, c).
          done (if not (code == 0) then 3 else 0, record st { comm = c }))

  unfoldable pub connect_to : Storage World → Option ℕ × World → Outcome (ℕ × Storage World)
  connect_to st (none, w) =
      done (2, record st { avr_fd = none; comm = record st.comm { world = w } })
  connect_to st (some fd, w) =
      handshake (record st { avr_fd = some fd; comm = record st.comm { world = w } })

  unfoldable pub connect : List (List ℕ) → Storage World → Outcome (ℕ × Storage World)
  connect argv st =
      if ltb (length argv) 2
      then done (1, st)
      else if is_positive st.avr_fd
      then handshake st
      else connect_to st (serial_open st.comm.world (word argv 1))

  unfoldable pub disconnect : List (List ℕ) → Storage World → Outcome (ℕ × Storage World)
  disconnect argv st =
      let (ret, w) = serial_close st.comm.world st.avr_fd in
      if not (length argv == 1)
      then done (1, st)
      else if is_closed st.avr_fd
      then done (2, st)
      else done (
        if not (ret == 0) then 3 else 0,
        record st { avr_fd = none; comm = record st.comm { world = w } },
      )

  -- `shell_cleanup`
  unfoldable pub shell_cleanup : Storage World → Storage World
  shell_cleanup st =
      if is_positive st.avr_fd
      then record st { comm = record st.comm { world = (serial_close st.comm.world st.avr_fd).1 } }
      else st

-- `shell_storage_new`, when its allocation succeeds.
unfoldable pub shell_storage_new : {World : Type 0} → Comm World → Storage World
shell_storage_new comm = record { avr_fd = none; comm = comm; printed = [] }
