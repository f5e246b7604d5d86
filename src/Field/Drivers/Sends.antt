-- ===== src/Field/Drivers/Sends.antt =====
-- A whole transfer of the master's to the slave, through both drivers.
use ammc.Base.{
  ℕ, suc, ◌+◌, ◌*◌, ◌/◌, ◌%◌, ◌≤◌, ◌<◌, ◌≡◌, refl, ap, Bool, true, false, some, List, [], ◌∷◌,
  length, drop, get_or, overlay, overlay-append-drop, ◌==◌, inl, inr, ◌⊎◌, arith,
}
use ammc.Master.Twi.{
  Twi as MasterTwi, isr as master_isr, transmit, send, addr_write, ready, transmitting, starting,
  start,
}
use ammc.Master.Twi.Transfers.{given, sending, transmit_more, send_lem, IsFinished}
use ammc.Slave.Twi.{Twi as SlaveTwi, isr as slave_isr, recv, start_recv, transfer}
use ammc.Slave.Twi.Transfers.{addressed}
use ammc.Field.Drivers.{
  wired, both, acknowledges, address_status, address, byte, begin, step, run, quiet, addressing,
  writing,
}
use ammc.Field.Drivers.Writes.{run-step, stopped, writes-run}

-- The slave takes the address of a transfer if it is its own, or the broadcast.
abbrev pub Takes : SlaveTwi → ℕ → Bool → Type 0
Takes s addr general =
    ((general ≡ true) × (addr ≡ 0))
    ⊎ ((general ≡ false) × (0 < addr) × (addr < 128) × (s.address ≡ addr))

step-address :
    (general : Bool) (m m' : MasterTwi) (s : SlaveTwi) (addr to_recv : ℕ) (buf : List ℕ)
    → Takes s addr general
    → transmit (record (given m (addr_write addr)) { mode = transmitting }) ≡ some m'
    → step (wired (given m (addr_write addr)) (start_recv s buf to_recv) addressing)
      ≡ some (wired m' (addressed s buf to_recv) (writing general))
unfolding step byte address acknowledges address_status both master_isr slave_isr start_recv
    addr_write
step-address general m m' s addr to_recv buf (inl (all, zero_addr)) sent =
    let first : (2 * addr % 256 == 0) ≡ true = ground arith in rw (first, all, sent, both) refl
step-address general m m' s addr to_recv buf (inr (one, positive, small, own)) sent =
    let nonzero : (2 * addr % 256 == 0) ≡ false = ground arith in
    let same : (2 * addr % 256 / 2 == s.address) ≡ true = ground arith in
    let writes : (2 * addr % 256 % 2 == 0) ≡ true = ground arith in
    rw (nonzero, same, writes, one, sent, both) refl

pub step-start :
    (m m' : MasterTwi) (s : SlaveTwi)
    → m.twcr ≡ starting
    → master_isr start m ≡ some m'
    → step (wired m s quiet) ≡ some (wired m' s addressing)
unfolding step begin both
step-start m m' s starts sent = rw (starts, sent, both) refl

-- The master's `twi_send` of at most 32 bytes, with its module ready, meets a slave in `twi_recv`
-- into an array with room for them, at the slave's address or as a broadcast. The two interrupt
-- routines then take the transfer to its end, a start, an address, the bytes and a stop: the slave
-- is where `twi_recv` of these bytes leaves it, and the master has released the bus without an error.
pub send-recv :
    (m : MasterTwi) (s : SlaveTwi) (addr to_recv : ℕ) (bytes buf : List ℕ) (general : Bool)
    → m.mode ≡ ready
    → length m.tx_buffer ≡ 33
    → length bytes ≤ 32
    → length bytes ≤ length buf
    → Takes s addr general
    → (last : MasterTwi) × (s' : SlaveTwi) × (run
          (suc (suc (suc (length bytes))))
          (wired (send m addr bytes (length bytes) false).1 (start_recv s buf to_recv) quiet)
        ≡ some (wired last s' quiet))
      × (recv s buf to_recv bytes ≡ some s')
      × IsFinished last
unfolding recv transfer slave_isr start_recv master_isr transmit
send-recv m s addr to_recv bytes buf general is_ready room fits inside takes =
    let first = addr_write addr in
    let buffer = overlay m.tx_buffer (first ∷ bytes) in
    let filled = overlay-append-drop m.tx_buffer (first ∷ bytes) (omega (arith, room)) in
    let started = sending m buffer (length bytes + 1) in
    let (m', last, s', sent, received, rest, finished) =
      writes-run general (record (given started first) { mode = transmitting })
        (addressed s buf to_recv) (first ∷ []) bytes (drop (suc (length bytes)) m.tx_buffer) filled
        refl (omega arith) refl (unfold acknowledges in refl) (omega arith) in
    (
      last,
      stopped s',
      rw (send_lem m addr bytes is_ready fits) (
          run-step (suc (suc (length bytes))) (wired started (start_recv s buf to_recv) quiet)
            (wired (given started first) (start_recv s buf to_recv) addressing)
            (wired last (stopped s') quiet)
            (step-start started (given started first) (start_recv s buf to_recv) refl (
              transmit_more started first (omega arith) (omega (arith, ap length filled))
                (ap (λ xs. get_or xs 0 0) filled)))
            (run-step (suc (length bytes))
              (wired (given started first) (start_recv s buf to_recv) addressing)
              (wired m' (addressed s buf to_recv) (writing general)) (wired last (stopped s') quiet)
              (step-address general started m' s addr to_recv buf takes sent) rest)),
      rw (received, transfer) refl,
      finished,
    )
