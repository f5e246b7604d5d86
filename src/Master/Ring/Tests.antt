-- ===== src/Master/Ring/Tests.antt =====
-- Runs of the master's ring, and an example of its refinement.
use ammc.Base.{◌≡◌, refl, inl, List, [], ◌∷◌, arith}
use ammc.Queue.Defs.{Op, push, pop, used, is_full, run}
use ammc.Queue.Interface.{replies}
use ammc.Master.Ring.{Ring}
use ammc.Master.Ring.Valid.{IsValid}
use ammc.Master.Ring.Refine.{ring, contents, ring_refines_queue}
use ammc.Samples.{zeros}

-- A ring of two bytes, with its indices away from the start.
abbrev turned : Ring
turned = record { base = zeros 2; first = 1; last = 1; size = 2; full = 0 }

turned-IsValid : IsValid turned
turned-IsValid = record {
  least = omega arith;
  byte = omega arith;
  fits = omega arith;
  first_in = omega arith;
  last_in = omega arith;
  state = inl refl;
}

abbrev calls : List Op
calls = push 5 ∷ push 6 ∷ push 7 ∷ is_full ∷ pop ∷ pop ∷ pop ∷ used ∷ []

ring_refines_queue_example : replies ring turned calls ≡ run 2 (contents turned) calls
ring_refines_queue_example = ring_refines_queue turned calls turned-IsValid
