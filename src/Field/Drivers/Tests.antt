-- ===== src/Field/Drivers/Tests.antt =====
-- Examples of transfers between the two drivers.
use ammc.Base.{◌≡◌, refl, false, some, [], ◌∷◌, ◌++◌, inr, arith}
use ammc.Samples.{zeros, idle_master}
use ammc.Slave.Samples.{first_slave, quiet as quiet_slave}
use ammc.Master.Twi.{Twi as MasterTwi, send, start_recv, ready, mt_sla_nack, stopping}
use ammc.Master.Twi.Transfers.{IsFinished}
use ammc.Slave.Twi.{
  Twi as SlaveTwi, start_recv as slave_recv, rx_max_len, st_data_nack, ready as slave_ready,
  enabled as slave_enabled,
}
use ammc.Slave.Command.{to_bytes, command_respond}
use ammc.Field.{deliver, prepared}
use ammc.Slave.Twi.{is_ready}
use ammc.Field.Drivers.{wired, run, quiet}
use ammc.Field.Drivers.Answers.{recv-respond}
use ammc.Field.Drivers.Refines.{executed, send-deliver, send-refused}

send-deliver_example :
    (last : MasterTwi) × (twi : SlaveTwi) × (run 6 (
        wired
          (send idle_master 1 (1 ∷ 100 ∷ 0 ∷ []) 3 false).1
          (slave_recv first_slave.twi (to_bytes first_slave.command) rx_max_len)
          quiet)
      ≡ some (wired last twi quiet))
    × (deliver (some first_slave) 1 (1 ∷ 100 ∷ 0 ∷ []) ≡ some (executed first_slave twi))
    × IsFinished last
send-deliver_example =
    send-deliver idle_master first_slave 1 (1 ∷ 100 ∷ 0 ∷ []) false refl refl refl
      (unfold is_ready in refl) (omega arith) (inr (refl, omega arith, omega arith, refl))

send-refused_example :
    let (code, started) = send idle_master 9 (3 ∷ []) 1 false in
    (code ≡ 0)
    × ((last : MasterTwi) × (run 3 (wired started quiet_slave quiet)
          ≡ some (wired last quiet_slave quiet))
        × (last.mode ≡ ready)
        × (last.error ≡ some mt_sla_nack)
        × (last.twcr ≡ stopping))
send-refused_example =
    send-refused idle_master quiet_slave 9 (3 ∷ []) refl refl (omega arith)
      (inr (omega arith, omega arith, omega arith))

recv-respond_example :
    let answering = command_respond first_slave (7 ∷ 8 ∷ 9 ∷ []) 3 in
    (m' : MasterTwi) × (s' : SlaveTwi) × (run 5
        (wired (start_recv idle_master 1 (zeros 3) 2 false) answering.twi quiet)
      ≡ some (wired m' s' quiet))
    × (m'.rx_buffer ≡ prepared (some answering) 2 ++ (0 ∷ []))
    × (prepared (some answering) 2 ≡ 7 ∷ 8 ∷ [])
    × (m'.rx_idx ≡ 2)
    × IsFinished m'
    × (s'.mode ≡ slave_ready)
    × (s'.twcr ≡ slave_enabled)
    × (s'.error ≡ some st_data_nack)
recv-respond_example =
    recv-respond idle_master first_slave 1 7 (8 ∷ []) (9 ∷ []) (zeros 3) refl refl refl
      (omega arith) (omega arith) (omega arith) refl
