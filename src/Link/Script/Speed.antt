-- ===== src/Link/Script/Speed.antt =====
-- A script that sets a speed and applies it.
use ammc.Base.{
  ℕ, true, false, ◌==◌, ◌/◌, ◌%◌, ◌<◌, ◌≡◌, ap, ◌∙◌, refl, some, List, [], ◌∷◌, ◌++◌, length,
  length-append, arith, ltb,
}
use ammc.Bus.{Bus}
use ammc.Packet.{Packet, com_type, hnd}
use ammc.Packet.Frame.{crafted}
use ammc.ComError.{ComError, success}
use ammc.Master.Commands.{dcmotor_set, dcmotor_apply}
use ammc.Master.Operations.{Locals}
use ammc.Master.Handler.{Handler}
use ammc.Client.Comm.{Line, Comm, done, packet_next_id}
use ammc.Client.Scan.{sscanf_assignment}
use ammc.Client.Commands.{
  Os, Storage, connect, connect_to, handshake, serial_open, serial_close, valid_dev, shell_cleanup,
  shell_storage_new,
}
use ammc.Client.Commands
use ammc.Client.Shell.{Shell, ShellCommand, Libc, words, find_builtin, same_name}
use ammc.Client.Shell.Arrays.{IsDocumented, named, are_distinct, is_fresh, search-sort}
use ammc.Client.Shell.Exec.{shell_execv, exec_line}
use ammc.Client.Program.{run}
use ammc.Client.Program.Table.{chars, connect_name, shell_commands}
use ammc.Link.{master}
use ammc.Link.Exchange.{resting, link_connects}
use ammc.Link.Session.{connected}
use ammc.Link.Session.Speed.{set_motor_speed-link, apply_speeds-link}
use ammc.Link.Script.Words.{IsWord, words-end, execute-external, exec_line-external}

abbrev pub set_line : List ℕ → List ℕ
set_line text = chars "set-speed " ++ text

abbrev pub apply_line : List ℕ
apply_line = chars "apply"

words-set_line :
    (c : ℕ) (text : List ℕ)
    → IsWord (c ∷ text)
    → words [] (set_line (c ∷ text) ++ 10 ∷ []) ≡ chars "set-speed" ∷ (c ∷ text) ∷ []
unfolding words
words-set_line c text is = ap (λ ws. chars "set-speed" ∷ ws) (unfold words in words-end c text is)

module _ (bus : Bus) (locals : Locals) (room : length locals.packet.body ≡ 33)
    (os : Os (Handler bus.World)) (client : Commands.Locals)
    (ready : length client.packet.body ≡ 33) (fd : ℕ) (device : 2 < fd)
    (tty : (w : Handler bus.World) → os.is_tty w fd ≡ true)
    (libc : Libc (Storage (Handler bus.World))) (documented : IsDocumented libc) where
  open bus use {World}

  abbrev pub line : Line
  line = master bus locals

  abbrev pub at : ℕ → List ℕ → World → Packet → Storage (Handler World)
  at g unread world rx =
      connected bus locals room os client ready fd device tty g unread
        (resting bus locals room g world rx success 1) []

  abbrev pub table : List (ShellCommand (Storage (Handler World)))
  table = shell_commands line os client

  abbrev pub shell : ℕ → Storage (Handler World) → Shell (Storage (Handler World))
  shell flags st = record {
    libc = libc;
    commands = libc.sort table;
    storage = st;
    flags = flags;
    output = [];
  }

  abbrev pub greeting : Packet
  greeting = crafted locals.packet 0 (com_type hnd) 0 []

  -- The device opens, and the handshake is acknowledged.
  connects :
      (g : ℕ) (world : World) (rx : Packet) (error : ComError) (performed : ℕ)
      (comm : Comm (Handler World)) (name : List ℕ) (c : ℕ) (path : List ℕ)
      → os.open_dev comm.world (c ∷ path)
        ≡ (some fd, resting bus locals room g world rx error performed)
      → connect line os client (name ∷ (c ∷ path) ∷ []) (shell_storage_new comm)
        ≡ done (0, at 1 [] world greeting)
  unfolding connect connect_to handshake serial_open valid_dev shell_storage_new
  connects g world rx error performed comm name c path opens =
      let start = resting bus locals room g world rx error performed in
      let positive : (fd == 0) ≡ false = ground arith in
      let standard : ltb 2 fd ≡ true = ground arith in
      let linked =
        link_connects bus locals room g world rx error performed client.packet comm.global_id
          comm.input ready in
      rw (opens, positive, standard, tty start, linked) refl

  found :
      (flags : ℕ) (st : Storage (Handler World)) (name : List ℕ)
      (cmd : ShellCommand (Storage (Handler World)))
      → named name table ≡ some cmd
      → libc.search name (shell flags st).commands ≡ some cmd
  unfolding are_distinct is_fresh same_name shell_commands
  found flags st name cmd here = search-sort libc name table documented refl ∙ here

  pub auto_connects :
      (g : ℕ) (world : World) (rx : Packet) (error : ComError) (performed : ℕ)
      (comm : Comm (Handler World)) (c : ℕ) (path : List ℕ)
      → os.open_dev comm.world (c ∷ path)
        ≡ (some fd, resting bus locals room g world rx error performed)
      → shell_execv (shell 0 (shell_storage_new comm)) connect_name ((c ∷ path) ∷ [])
        ≡ done (0, shell 0 (at 1 [] world greeting))
  unfolding shell_execv find_builtin named same_name shell_commands
  auto_connects g world rx error performed comm c path opens =
      execute-external (shell 0 (shell_storage_new comm)) connect_name
        (connect_name ∷ (c ∷ path) ∷ []) _ (at 1 [] world greeting) refl
        (found 0 (shell_storage_new comm) connect_name _ refl)
        (connects g world rx error performed comm connect_name c path opens)

  -- The line that sets a speed, and the one that applies it.
  pub sets :
      (flags g : ℕ) (world : World) (rx : Packet) (unread : List ℕ) (c : ℕ) (text : List ℕ)
      (motor speed : ℕ)
      → g < 256
      → 0 < motor
      → motor < 256
      → IsWord (c ∷ text)
      → length text < 2000
      → sscanf_assignment (c ∷ text) ≡ motor ∷ speed ∷ []
      → (rest : List ℕ) × (p : Packet) × (exec_line
            (shell flags (at g unread world rx))
            (set_line (c ∷ text) ++ 10 ∷ [])
          ≡ done (
            0,
            shell flags (
                at
                  (packet_next_id g)
                  rest
                  (dcmotor_set bus locals.stack world motor (speed % 256 ∷ speed / 256 % 256 ∷ []))
                  p),
          ))
  unfolding find_builtin named same_name shell_commands
  sets flags g world rx unread c text motor speed small positive byte is short scanned =
      let (rest, p, run) =
        set_motor_speed-link bus locals room os client ready fd device tty g world rx success 1
          unread [] (chars "set-speed") small (c ∷ text) motor speed positive byte scanned in
      (
        rest,
        p,
        exec_line-external (shell flags (at g unread world rx)) (set_line (c ∷ text) ++ 10 ∷ [])
            (chars "set-speed") ((c ∷ text) ∷ []) _ _
            (omega (arith, length-append {0} text (10 ∷ []))) (words-set_line c text is) refl
            (found flags (at g unread world rx) (chars "set-speed") _ refl) run,
      )

  pub applies :
      (flags g : ℕ) (world : World) (rx : Packet) (unread : List ℕ)
      → g < 256
      → (rest : List ℕ) × (p : Packet) × (exec_line
            (shell flags (at g unread world rx))
            (apply_line ++ 10 ∷ [])
          ≡ done (
            0,
            shell flags (at (packet_next_id g) rest (dcmotor_apply bus locals.stack world) p),
          ))
  unfolding find_builtin named same_name shell_commands words
  applies flags g world rx unread small =
      let (rest, p, run) =
        apply_speeds-link bus locals room os client ready fd device tty g world rx success 1 unread
          [] apply_line small in
      (
        rest,
        p,
        exec_line-external (shell flags (at g unread world rx)) (apply_line ++ 10 ∷ []) apply_line
            [] _ _ (omega arith) refl refl (found flags (at g unread world rx) apply_line _ refl)
            run,
      )
