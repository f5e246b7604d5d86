-- ===== src/Master/Ring/Valid.antt =====
-- The representation invariant of the ring.
use ammc.Base.{
  ℕ, ◌≤◌, ◌<◌, ◌≡◌, ◌⊎◌, length, length-set, List, some, ap, u8, ltb, false, refl, arith,
}
use ammc.Cyclic.{distance_self}
use ammc.Master.Ring.{Ring, new, used, pop, push, flush}

pub record IsValid (rb : Ring) : Type 0 where
  pub least : 2 ≤ rb.size
  pub byte : rb.size < 256
  pub fits : rb.size ≤ length rb.base
  pub first_in : rb.first < rb.size
  pub last_in : rb.last < rb.size
  pub state : (rb.full ≡ 0) ⊎ ((rb.full ≡ 1) × (rb.first ≡ rb.last))

-- `ringbuffer_new` on an array that has the size given makes a valid, empty ring.
pub new-IsValid :
    (rb : Ring) (buf : List ℕ) (n : ℕ)
    → 2 ≤ n
    → n < 256
    → n ≤ length buf
    → let (code, rb') = new rb (some buf) n in (code ≡ 0) × IsValid rb' × (used rb' ≡ 0)
unfolding new used
new-IsValid rb buf n p q r =
    let large : ltb n 2 ≡ false = ground arith in
    rw large (refl, omega arith, ap u8 (distance_self n 0 (omega arith)))

pub push-IsValid : (rb : Ring) (v : ℕ) → IsValid rb → IsValid (push rb v).1
unfolding push
push-IsValid rb v h = ground (arith, length-set rb.base rb.last v)

pub pop-IsValid : (rb : Ring) → IsValid rb → IsValid (pop rb).2
unfolding pop
pop-IsValid rb h = ground arith

pub flush-IsValid : (rb : Ring) → IsValid rb → IsValid (flush rb)
unfolding flush
flush-IsValid rb h = ground arith
