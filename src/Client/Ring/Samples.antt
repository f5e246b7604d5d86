-- ===== src/Client/Ring/Samples.antt =====
-- A ring for the tests and the examples.
use ammc.Base.{refl, inl, arith}
use ammc.Samples.{zeros}
use ammc.Client.Ring.{Ring}
use ammc.Client.Ring.Valid.{IsValid}

-- A ring of two bytes, with its indices away from the start.
abbrev pub turned : Ring
turned = record { base = zeros 2; first = 1; last = 1; size = 2; full = 0 }

pub turned-IsValid : IsValid turned
turned-IsValid = record {
  least = omega arith;
  small = omega arith;
  fits = omega arith;
  first_in = omega arith;
  last_in = omega arith;
  state = inl refl;
}
