-- ===== src/Client/Serial/Tests.antt =====
-- Runs of the loops with short and with failing calls.
use ammc.Base.{ℕ, ◌≡◌, ◌++◌, refl, true, none, some, List, [], ◌∷◌, arith}
use ammc.Samples.{same_answer}
use ammc.Client.Comm.{Line, Comm, done, serial_rx}
use ammc.Client.Serial.{fails, takes, rx, rx_loop}
use ammc.Client.Serial.Loops.{serial_rx_refines, taking, total}

abbrev line : Line
line = same_answer []

abbrev ready : Comm ℕ
ready = record { tty = true; global_id = 0; input = 5 ∷ 6 ∷ 7 ∷ 8 ∷ []; world = 0 }

rx_fails : rx true (takes 1 ∷ fails ∷ []) 3 (5 ∷ 6 ∷ 7 ∷ []) ≡ some (none, 5 ∷ [], 6 ∷ 7 ∷ [])
unfolding rx rx_loop
rx_fails = refl

serial_rx_refines_example :
    (bytes left : List ℕ) × (rx ready.tty (taking (1 ∷ 0 ∷ 9 ∷ [])) 3 ready.input
      ≡ some (some 3, bytes, left))
    × (serial_rx line ready 3 ≡ done (bytes, record ready { input = left }))
    × (bytes ++ left ≡ ready.input)
unfolding total
serial_rx_refines_example =
    serial_rx_refines line ready (1 ∷ 0 ∷ 9 ∷ []) 3 refl (omega arith) (omega arith)
