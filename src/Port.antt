-- ===== src/Port.antt =====
-- What the master's serial module promises: received bytes come out in order, and sent bytes go
-- out in order, at most 32 in a call.
pub mod Reads
use ammc.Base.{
  ℕ, ◌||◌, Option, none, some, List, ◌++◌, length, take, drop, ltb, ◌==◌, if◌then◌else◌,
}

pub record Port : Type 0 where
  pub input : List ℕ
  pub output : List ℕ

abbrev pub tx_limit : ℕ
tx_limit = 32

-- A blocking read of `n` bytes; `none` while there are not enough.
unfoldable pub read : Port → ℕ → Option (List ℕ × Port)
read p n =
    if ltb (length p.input) n
    then none
    else some (take n p.input, record p { input = drop n p.input })

-- The returned code, and the port with the bytes sent.
unfoldable pub write : Port → List ℕ → ℕ → ℕ × Port
write p bytes n =
    if n == 0 || ltb tx_limit n then (1, p) else (0, record p { output = p.output ++ take n bytes })
