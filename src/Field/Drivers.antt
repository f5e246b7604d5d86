-- ===== src/Field/Drivers.antt =====
-- The drivers at the two ends of the bus, master/source/twi.c and slave/source/twi.c, with the wire
-- between them as the documented statuses of the hardware say. Each step is one event of the bus: a
-- start, an address, a byte, or a stop; the interrupts that it raises at the two ends are served
-- before the next one, since both ends hold the clock until then. A repeated start, of a master that
-- keeps the bus, and the loss of the arbitration to another master are left out.
pub mod Writes
pub mod Reads
pub mod Sends
pub mod Answers
pub mod Refines
mod Tests
use ammc.Base.{ℕ, zero, suc, ◌/◌, ◌%◌, Bool, true, false, Option, none, some, ◌==◌, if◌then◌else◌}
use ammc.Master.Twi.{
  Twi as MasterTwi, isr as master_isr, start, mt_sla_ack, mt_sla_nack, mt_data_ack, mt_data_nack,
  mr_sla_ack, mr_sla_nack, mr_data_ack, mr_data_nack, enabled, starting, stopping, acking, going,
}
use ammc.Slave.Twi.{
  Twi as SlaveTwi, Status as SlaveStatus, isr as slave_isr, st_sla_ack, st_data_ack, st_data_nack,
  sr_sla_ack, sr_gcall_ack, sr_data_ack, sr_gcall_data_ack, sr_stop, sr_data_nack,
  sr_gcall_data_nack, enabled as slave_enabled, acking as slave_acking, released as slave_released,
}

-- What is going on on the wire. While the master writes, a flag says whether it is to all slaves;
-- after a byte that was not acknowledged, no slave takes part.
pub data Phase : Type 0 where
  quiet addressing reading alone : Phase
  writing : (general : Bool) → Phase

pub record Drivers : Type 0 where
  pub master : MasterTwi
  pub slave : SlaveTwi
  pub phase : Phase

-- The two ends when the interrupts were served; `none` if one of them went out of bounds.
unfoldable pub both : Option MasterTwi → Option SlaveTwi → Phase → Option Drivers
both none s phase = none
both (some m) none phase = none
both (some m) (some s) phase = some (record { master = m; slave = s; phase = phase })

-- Whether the slave acknowledges: TWEA is set.
unfoldable pub acknowledges : SlaveTwi → Bool
acknowledges s = elim s.twcr [
  | slave_enabled ↦ false
  | slave_acking ↦ true
  | slave_released ↦ false
]

-- The statuses of a slave that is written to.
unfoldable pub address_status : Bool → SlaveStatus
address_status true = sr_gcall_ack
address_status false = sr_sla_ack

unfoldable pub data_status : Bool → SlaveStatus
data_status true = sr_gcall_data_ack
data_status false = sr_data_ack

unfoldable pub refused_status : Bool → SlaveStatus
refused_status true = sr_gcall_data_nack
refused_status false = sr_data_nack

-- The address byte that the master has given to the hardware. The slave takes part if it
-- acknowledges and the address is its own, or the broadcast with the bit for writing.
unfoldable pub address : MasterTwi → SlaveTwi → Option Drivers
address m s =
    if acknowledges s
    then (if m.twdr == 0
        then both (master_isr mt_sla_ack m) (slave_isr (address_status true) s) (writing true)
        else if m.twdr / 2 == s.address
        then (if m.twdr % 2 == 0
            then both (master_isr mt_sla_ack m) (slave_isr (address_status false) s) (writing false)
            else both (master_isr mr_sla_ack m) (slave_isr st_sla_ack s) reading)
        else both (master_isr (if m.twdr % 2 == 0 then mt_sla_nack else mr_sla_nack) m) (some s)
            alone)
    else both (master_isr (if m.twdr % 2 == 0 then mt_sla_nack else mr_sla_nack) m) (some s) alone

-- A byte of the master's.
unfoldable pub write : Bool → MasterTwi → SlaveTwi → Option Drivers
write general m s =
    if acknowledges s
    then both (master_isr mt_data_ack m)
        (slave_isr (data_status general) (record s { twdr = m.twdr })) (writing general)
    else both (master_isr mt_data_nack m)
        (slave_isr (refused_status general) (record s { twdr = m.twdr })) alone

-- A byte of the slave's, which the master acknowledges or not.
unfoldable pub read : Bool → MasterTwi → SlaveTwi → Option Drivers
read true m s =
    both (master_isr mr_data_ack (record m { twdr = s.twdr })) (slave_isr st_data_ack s) reading
read false m s =
    both (master_isr mr_data_nack (record m { twdr = s.twdr })) (slave_isr st_data_nack s) alone

-- The next byte, which the master acknowledges if it is one of the slave's.
unfoldable pub byte : Bool → Drivers → Option Drivers
byte acknowledged d = elim d.phase [
  | quiet ↦ some d
  | addressing ↦ address d.master d.slave
  | reading ↦ read acknowledged d.master d.slave
  | alone ↦ some d
  | writing general ↦ write general d.master d.slave
]

unfoldable pub begin : Drivers → Option Drivers
begin d = elim d.phase [
  | quiet ↦ both (master_isr start d.master) (some d.slave) addressing
  | addressing ↦ some d
  | reading ↦ some d
  | alone ↦ some d
  | writing general ↦ some d
]

unfoldable pub stop : Drivers → Option Drivers
stop d = elim d.phase [
  | quiet ↦ some d
  | addressing ↦ some (record d { phase = quiet })
  | reading ↦ some (record d { phase = quiet })
  | alone ↦ some (record d { phase = quiet })
  | writing general ↦ both (some d.master) (slave_isr sr_stop d.slave) quiet
]

-- What the master's control register asks for.
unfoldable pub step : Drivers → Option Drivers
step d = elim d.master.twcr [
  | enabled ↦ some d
  | starting ↦ begin d
  | stopping ↦ stop d
  | acking ↦ byte true d
  | going ↦ byte false d
]

unfoldable pub run : ℕ → Drivers → Option Drivers
run zero d = some d
run (suc n) d = elim (step d) [ none ↦ none | some d' ↦ run n d' ]

abbrev pub wired : MasterTwi → SlaveTwi → Phase → Drivers
wired m s phase = record { master = m; slave = s; phase = phase }
