-- ===== src/Port/Reads.antt =====
-- When a read of the port succeeds.
use ammc.Base.{
  ℕ, ◌<◌, ◌≡◌, refl, false, none, some, List, ◌++◌, length, length-append, take-append, drop-append,
  ltb, arith,
}
use ammc.Port.{Port, read}

pub read-append :
    (bs rest output : List ℕ)
    → read (record { input = bs ++ rest; output = output }) (length bs)
      ≡ some (bs, record { input = rest; output = output })
unfolding read
read-append bs rest output = rw (there, take-append, drop-append) refl
  where
    there : ltb (length (bs ++ rest)) (length bs) ≡ false
    there = ground (arith, length-append {0} bs rest)

pub read_short : (p : Port) (n : ℕ) → length p.input < n → read p n ≡ none
unfolding read
read_short p n h = ground arith
