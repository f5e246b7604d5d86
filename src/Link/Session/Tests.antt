-- ===== src/Link/Session/Tests.antt =====
-- Examples of the commands over the line.
use ammc.Base.{ℕ, ◌≡◌, refl, some, List, [], ◌∷◌, inr, arith, if◌then◌else◌, ◌==◌}
use ammc.Bus.{Bus}
use ammc.Packet.{com_type, ack}
use ammc.Packet.Frame.{frame, crafted}
use ammc.ComError.{success}
use ammc.Master.Commands.{dcmotor_get, send_command, recv_response}
use ammc.Master.Handler.{Handler}
use ammc.Client.Comm.{done, packet_next_id}
use ammc.Client.EchoString.Fits.{join}
use ammc.Client.Scan.Decimal.{decimal}
use ammc.Client.Commands.{Storage, echoed, slave_available, slave_unreachable, speed_of}
use ammc.Client.Commands.Queries.{dev_echo, ping_slave, get_motor_speed}
use ammc.Samples.{blank, blank_locals, blank_client, mirror_bus, silent_bus, one_device}
use ammc.Link.{master}
use ammc.Link.Session.Query.{session}
use ammc.Link.Session.Keeps.{Agreed, storage}
use ammc.Client.Scan.{
  sscanf_assignment, sscanf_assigned, sscanf_integer_byte, scan_integer, scan_digits, split_sign,
  skip_spaces, starts_digit, digit_value, to_ulong, to_long, base_of,
}
use ammc.Link.Session.Requests.{
  Request, asks_apply, asks_address, asks_speed, requests, requests-Agreed,
}
use ammc.Link.Session.Echo.{dev_echo-link}
use ammc.Link.Session.Answers.{answered, ping_slave-link, get_motor_speed-link}

abbrev name : List ℕ
name = b'x' ∷ []

abbrev ab : List ℕ
ab = b'a' ∷ b' ' ∷ b'b' ∷ []

abbrev at_three : (bus : Bus) → bus.World → Storage (Handler bus.World)
at_three bus world =
    session bus blank_locals refl (one_device (Handler bus.World)) blank_client refl refl 3
      (omega arith) (λ w. refl) 3 (9 ∷ []) world blank success 0 []

dev_echo-link_example :
    dev_echo
      (master mirror_bus blank_locals)
      (one_device (Handler (List ℕ)))
      blank_client
      (name ∷ (b'a' ∷ []) ∷ (b'b' ∷ []) ∷ [])
      (at_three mirror_bus (7 ∷ []))
    ≡ done (
      0,
      session mirror_bus blank_locals refl
          (one_device (Handler (List ℕ)))
          blank_client
          refl
          refl
          3
          (omega arith)
          (λ w. refl)
          (packet_next_id (packet_next_id 3))
          (frame (packet_next_id 3) (com_type ack) 0 [])
          (7 ∷ [])
          (crafted blank (packet_next_id 3) (com_type ack) 0 [])
          success
          1
          (echoed ab ∷ []),
    )
unfolding join
dev_echo-link_example =
    dev_echo-link mirror_bus blank_locals refl (one_device (Handler (List ℕ))) blank_client refl
      refl 3 (omega arith) (λ w. refl) 3 (7 ∷ []) ab (omega arith) (omega arith)
      ((omega arith, omega arith), ((omega arith, omega arith), ((omega arith, omega arith), tt)))
      blank success 0 (9 ∷ []) [] name (b'a' ∷ []) ((b'b' ∷ []) ∷ []) refl refl

ping_slave-link_example :
    ping_slave
      (master silent_bus blank_locals)
      (one_device (Handler (List ℕ)))
      blank_client
      (name ∷ decimal 12 ∷ [])
      (at_three silent_bus (7 ∷ []))
    ≡ done (
      0,
      answered silent_bus blank_locals refl
          (one_device (Handler (List ℕ)))
          blank_client
          refl
          refl
          3
          (omega arith)
          (λ w. refl)
          3
          (7 ∷ [])
          blank
          success
          0
          (9 ∷ [])
          []
          name
          (omega arith)
          (send_command silent_bus blank_locals.stack (7 ∷ []) 12 3 (some (12 ∷ [])) 1)
          (if 5 == 0 then slave_available 12 else slave_unreachable 12),
    )
unfolding recv_response
ping_slave-link_example =
    ping_slave-link silent_bus blank_locals refl (one_device (Handler (List ℕ))) blank_client refl
      refl 3 (omega arith) (λ w. refl) 3 (7 ∷ []) blank success 0 (9 ∷ []) [] name (omega arith) 12
      [] (send_command silent_bus blank_locals.stack (7 ∷ []) 12 3 (some (12 ∷ [])) 1) 5
      (omega arith) (omega arith) refl (inr (refl, refl))

get_motor_speed-link_example :
    get_motor_speed
      (master silent_bus blank_locals)
      (one_device (Handler (List ℕ)))
      blank_client
      (name ∷ decimal 2 ∷ [])
      (at_three silent_bus (7 ∷ []))
    ≡ done (
      0,
      answered silent_bus blank_locals refl
          (one_device (Handler (List ℕ)))
          blank_client
          refl
          refl
          3
          (omega arith)
          (λ w. refl)
          3
          (7 ∷ [])
          blank
          success
          0
          (9 ∷ [])
          []
          name
          (omega arith)
          (dcmotor_get silent_bus blank_locals.stack (7 ∷ []) 2).1
          (speed_of 2 0),
    )
unfolding dcmotor_get recv_response
get_motor_speed-link_example =
    get_motor_speed-link silent_bus blank_locals refl (one_device (Handler (List ℕ))) blank_client
      refl refl 3 (omega arith) (λ w. refl) 3 (7 ∷ []) blank success 0 (9 ∷ []) [] name
      (omega arith) 2 0 0 (dcmotor_get silent_bus blank_locals.stack (7 ∷ []) 2).1 (omega arith)
      (omega arith) (omega arith) (omega arith) refl

abbrev script : List Request
script =
    asks_apply []
    ∷ asks_address ((b'1' ∷ []) ∷ (b'9' ∷ []) ∷ [])
    ∷ asks_speed ((b'9' ∷ b'=' ∷ b'7' ∷ []) ∷ [])
    ∷ []

abbrev agreed :
    Agreed silent_bus blank_locals refl
      (one_device (Handler (List ℕ)))
      blank_client
      refl
      refl
      3
      (omega arith)
      (λ w. refl)
agreed = record {
  id = 3;
  small = omega arith;
  world = 7 ∷ [];
  rx = blank;
  error = success;
  performed = 0;
  printed = [];
}

requests-Agreed_example :
    (a' : Agreed silent_bus blank_locals refl
      (one_device (Handler (List ℕ)))
      blank_client
      refl
      refl
      3
      (omega arith)
      (λ w. refl))
    × (requests silent_bus blank_locals refl (one_device (Handler (List ℕ))) blank_client script (
          storage silent_bus blank_locals refl
            (one_device (Handler (List ℕ)))
            blank_client
            refl
            refl
            3
            (omega arith)
            (λ w. refl)
            agreed)
        ≡ done (
          0 ∷ 0 ∷ 0 ∷ [],
          storage silent_bus blank_locals refl
              (one_device (Handler (List ℕ)))
              blank_client
              refl
              refl
              3
              (omega arith)
              (λ w. refl)
              a',
        ))
unfolding sscanf_assignment sscanf_assigned sscanf_integer_byte scan_integer scan_digits split_sign
    skip_spaces starts_digit digit_value to_ulong to_long base_of
requests-Agreed_example =
    requests-Agreed silent_bus blank_locals refl (one_device (Handler (List ℕ))) blank_client refl
      refl 3 (omega arith) (λ w. refl) script agreed
      (
        refl,
        (
          (
            b'1' ∷ [],
            b'9' ∷ [],
            1,
            9,
            refl,
            refl,
            refl,
            omega arith,
            omega arith,
            omega arith,
            omega arith,
          ),
          ((b'9' ∷ b'=' ∷ b'7' ∷ [], 9, 7, refl, refl, omega arith, omega arith), tt),
        ),
      )
