-- ===== src/Master/Twi/Tests.antt =====
-- Examples of transfers by the master, and of a slave that does not answer.
use ammc.Base.{◌≡◌, refl, false, none, some, [], ◌∷◌, arith}
use ammc.Samples.{zeros, idle_master}
use ammc.Master.Twi.{
  start, mt_sla_nack, stopping, isr, transmit, finish, on_wire, send, send_raw, recv, addr_write,
  init,
}
use ammc.Master.Twi.Receives.{recv_unbounded}

init_bit_rate : (init idle_master).twbr ≡ 72
unfolding init
init_bit_rate = refl

-- A slave that is not there: its address alone is on the wire, and the error is kept.
send_refused :
    on_wire (start ∷ mt_sla_nack ∷ []) (send idle_master 5 (1 ∷ 2 ∷ []) 2 false).1
    ≡ some (
      10 ∷ [],
      record idle_master {
        error = some mt_sla_nack;
        tx_buffer = 10 ∷ 1 ∷ 2 ∷ zeros 30;
        tx_idx = 1;
        tx_size = 3;
        twdr = 10;
        twcr = stopping;
      },
    )
unfolding on_wire send send_raw isr transmit finish addr_write
send_refused = refl

recv_unbounded_example : recv idle_master 5 (zeros 2) 0 (7 ∷ 8 ∷ 9 ∷ []) ≡ none
recv_unbounded_example =
    recv_unbounded idle_master 5 (zeros 2) (7 ∷ 8 ∷ 9 ∷ []) refl (omega arith) (omega arith)
      (omega arith)
