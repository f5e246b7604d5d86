-- ===== src/Link/Session/Speed.antt =====
-- The commands set-speed and apply of the client, the master, and a slave on its bus.
use ammc.Base.{
  ℕ, true, false, ◌+◌, ◌*◌, ◌/◌, ◌%◌, ◌^◌, ◌<◌, ◌≡◌, ap, ◌∙◌, refl, Option, none, some, List, [],
  ◌∷◌, ◌++◌, length, arith, ◌==◌, bit_and, ==_iff,
}
use ammc.Base.Table.{holds_under, holds_at}
use ammc.Bus.{Bus}
use ammc.Packet.{Packet, com_type, set_speed, apply}
use ammc.Packet.Frame.{crafted}
use ammc.ComError.{ComError, success}
use ammc.Master.Commands.{Stack, dcmotor_set, dcmotor_apply}
use ammc.Master.Operations.{Locals, op_set_speed, op_apply, operation_table}
use ammc.Master.Comm.{next_id}
use ammc.Master.Handler.{Handler, run_operation}
use ammc.Client.Comm.{Line, done, packet_next_id}
use ammc.Client.Scan.{sscanf_assignment}
use ammc.Client.Scan.Decimal.{decimal, sscanf_assignment-decimal}
use ammc.Client.Commands.{Os, Storage, Message}
use ammc.Client.Commands.Settings.{set_motor_speed, apply_speeds}
use ammc.Client.Commands
use ammc.Link.{master, cleared}
use ammc.Link.Exchange.{resting, served}
use ammc.Link.Session.{connected, psend-link}
use ammc.Slave.Motor.{compute_limited_speed}
use ammc.Slave.Twi.{is_ready}
use ammc.Slave.Command.{Slave}
use ammc.Field.{slave_bus}
use ammc.Field.Speed.{field_speed}

pub bit_and-byte : (b : ℕ) → b < 256 → bit_and b 255 ≡ b
bit_and-byte b small =
    (==_iff (bit_and b 255) b).0 (holds_at (λ b. bit_and b 255 == b) 256 b small all)
  where
    all : holds_under (λ b. bit_and b 255 == b) 256 ≡ true
    all = unfold holds_under in refl

module _ (bus : Bus) (locals : Locals) (room : length locals.packet.body ≡ 33) where
  open bus use {World}

  -- What the master's bus has seen when a packet with a speed was served, and the one to apply it.
  pub served-set_speed :
      (g : ℕ) (world : World) (motor low high : ℕ)
      → motor < 256
      → let p = crafted locals.packet g (com_type set_speed) motor (low ∷ high ∷ []) in
        cleared bus locals (served bus locals room g world p)
        ≡ resting bus locals room
            (packet_next_id g)
            (dcmotor_set bus locals.stack world motor (low ∷ high ∷ []))
            p
            success
            1
  unfolding run_operation operation_table op_set_speed packet_next_id next_id
  served-set_speed g world motor low high small = rw (bit_and-byte motor small) refl

  pub served-apply :
      (g : ℕ) (world : World)
      → let p = crafted locals.packet g (com_type apply) 0 [] in
        cleared bus locals (served bus locals room g world p)
        ≡ resting bus locals room
            (packet_next_id g)
            (dcmotor_apply bus locals.stack world)
            p
            success
            1
  unfolding run_operation operation_table op_apply packet_next_id next_id
  served-apply g world = refl

module _ (bus : Bus) (locals : Locals) (room : length locals.packet.body ≡ 33)
    (os : Os (Handler bus.World)) (client : Commands.Locals)
    (ready : length client.packet.body ≡ 33) (fd : ℕ) (device : 2 < fd)
    (tty : (w : Handler bus.World) → os.is_tty w fd ≡ true) where
  open bus use {World}

  abbrev session :
      ℕ → List ℕ → World → Packet → ComError → ℕ → List Message → Storage (Handler World)
  session g unread world rx error performed printed =
      connected bus locals room os client ready fd device tty g unread
        (resting bus locals room g world rx error performed) printed

  module _ (g : ℕ) (world : World) (rx : Packet) (error : ComError) (performed : ℕ)
      (unread : List ℕ) (printed : List Message) (name : List ℕ) (byte : g < 256) where
    pub set_motor_speed-link :
        (text : List ℕ) (motor speed : ℕ)
        → 0 < motor
        → motor < 256
        → sscanf_assignment text ≡ motor ∷ speed ∷ []
        → (rest : List ℕ) × (p : Packet) × (set_motor_speed
              (master bus locals)
              os
              client
              (name ∷ text ∷ [])
              (session g unread world rx error performed printed)
            ≡ done (
              0,
              session
                  (packet_next_id g)
                  rest
                  (dcmotor_set bus locals.stack world motor (speed % 256 ∷ speed / 256 % 256 ∷ []))
                  p
                  success
                  1
                  printed,
            ))
    unfolding set_motor_speed
    set_motor_speed-link text motor speed positive small scanned =
        let low = speed % 256 in
        let high = speed / 256 % 256 in
        let (rest, sent) =
          psend-link bus locals room os client ready fd device tty g world rx error performed unread
            printed (com_type set_speed) motor (some (low ∷ high ∷ [])) (omega arith) (omega arith)
            (omega arith)
            (byte, (omega arith, (small, (omega arith, (omega arith, (omega arith, tt)))))) in
        let nonzero : (motor == 0) ≡ false = ground arith in
        (
          rest,
          crafted locals.packet g (com_type set_speed) motor (low ∷ high ∷ []),
          rw (scanned, nonzero, sent, served-set_speed bus locals room g world motor low high small)
              refl,
        )

    pub apply_speeds-link :
        (rest : List ℕ) × (p : Packet) × (apply_speeds
            (master bus locals)
            os
            client
            (name ∷ [])
            (session g unread world rx error performed printed)
          ≡ done (
            0,
            session
                (packet_next_id g)
                rest
                (dcmotor_apply bus locals.stack world)
                p
                success
                1
                printed,
          ))
    unfolding apply_speeds
    apply_speeds-link =
        let (rest, sent) =
          psend-link bus locals room os client ready fd device tty g world rx error performed unread
            printed (com_type apply) 0 none (omega arith) (omega arith) (omega arith)
            (byte, (omega arith, (omega arith, (omega arith, tt)))) in
        (
          rest,
          crafted locals.packet g (com_type apply) 0 [],
          rw (sent, served-apply bus locals room g world) refl,
        )

module _ {F : Type 0} where
  pub field_stack :
      (s : Slave F) (id : ℕ) (argument speed : List ℕ) (low high : ℕ)
      → length argument ≡ 15
      → 0 < s.twi.address
      → s.twi.address < 128
      → is_ready s.twi ≡ true
      → length s.command.argument ≡ 15
      → let stack : Stack = record {
        command = record { id = id; argument = argument };
        speed = speed;
      } in
        (s' : Slave F) × (dcmotor_apply
            (slave_bus F)
            stack
            (dcmotor_set (slave_bus F) stack (some s) s.twi.address (low ∷ high ∷ []))
          ≡ some s')
        × (s'.motor.speed_target ≡ compute_limited_speed (low + 256 * high))
  field_stack s id [] speed low high size positive short free slave_size =
      absurd (omega (arith, size))
  field_stack s id (x ∷ []) speed low high size positive short free slave_size =
      absurd (omega (arith, size))
  field_stack s id (x ∷ y ∷ xs) speed low high size positive short free slave_size =
      field_speed s id x y low high xs speed positive short free slave_size

module _ {F : Type 0} (locals : Locals) (room : length locals.packet.body ≡ 33)
    (stack_room : length locals.stack.command.argument ≡ 15) (os : Os (Handler (Option (Slave F))))
    (client : Commands.Locals) (ready : length client.packet.body ≡ 33) (fd : ℕ) (device : 2 < fd)
    (tty : (w : Handler (Option (Slave F))) → os.is_tty w fd ≡ true) where
  abbrev bus : Bus
  bus = slave_bus F

  abbrev line : Line
  line = master bus locals

  -- The client has the device open; the master rests at the same id, a byte, and one slave is on its
  -- bus, whose address `a` is from 1 to 127, whose module is ready and whose command has 16 bytes, as
  -- the one on the master's stack. Then `set-speed a=n`, with both in decimal notation and `n` below 32768, and
  -- `apply` after it return 0 on the client, and the slave's target is the limited speed `n`,
  -- whatever the client has not read and whatever the commands held before.
  pub session_speed :
      (s : Slave F) (g : ℕ) (rx : Packet) (error : ComError) (performed : ℕ) (unread : List ℕ)
      (printed : List Message) (set_name apply_name : List ℕ) (speed : ℕ)
      → g < 256
      → 0 < s.twi.address
      → s.twi.address < 128
      → is_ready s.twi ≡ true
      → length s.command.argument ≡ 15
      → speed < 2 ^ 15
      → let start =
          connected bus locals room os client ready fd device tty g unread
            (resting bus locals room g (some s) rx error performed)
            printed in
        let argument = decimal s.twi.address ++ b'=' ∷ decimal speed in
        (st st' : Storage (Handler (Option (Slave F)))) × (s' : Slave F) × (set_motor_speed line os
            client
            (set_name ∷ argument ∷ [])
            start
          ≡ done (0, st))
        × (apply_speeds line os client (apply_name ∷ []) st ≡ done (0, st'))
        × (st'.comm.world.comm.world ≡ some s')
        × (s'.motor.speed_target ≡ compute_limited_speed speed)
  unfolding packet_next_id
  session_speed s g rx error performed unread printed set_name apply_name speed small positive byte
        free slave_room short =
      let motor = s.twi.address in
      let next : packet_next_id g < 256 = omega arith in
      let word : speed % 256 + 256 * (speed / 256 % 256) ≡ speed = omega arith in
      let scanned =
        (sscanf_assignment-decimal motor speed (omega arith) short).0
        ∙ ap (λ m. m ∷ speed ∷ []) (omega arith) in
      let (rest, p, set_run) =
        set_motor_speed-link bus locals room os client ready fd device tty g (some s) rx error
          performed unread printed set_name small (decimal motor ++ b'=' ∷ decimal speed) motor
          speed positive (omega arith) scanned in
      let (s', stored, target) =
        field_stack s locals.stack.command.id locals.stack.command.argument locals.stack.speed
          (speed % 256) (speed / 256 % 256) stack_room positive byte free slave_room in
      let world =
        dcmotor_set bus locals.stack (some s) motor (speed % 256 ∷ speed / 256 % 256 ∷ []) in
      let (rest', p', apply_run) =
        apply_speeds-link bus locals room os client ready fd device tty (packet_next_id g) world p
          success 1 rest printed apply_name next in
      (_, _, s', set_run, apply_run, stored, target ∙ ap compute_limited_speed word)
