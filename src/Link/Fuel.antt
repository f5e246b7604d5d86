-- ===== src/Link/Fuel.antt =====
-- More rounds than needed do not change how the handler's loop ends.
use ammc.Base.{ℕ, zero, suc, ◌+◌, ◌≡◌, refl, ap, ◌∙◌, some, arith}
use ammc.Bus.{Bus}
use ammc.Master.Operations.{Locals}
use ammc.Master.Handler.{Handler, Round, returns, continues, waits, overflows, round, rounds}

module _ (bus : Bus) (locals : Locals) where
  open bus use {World}

  rounds_step :
      (fuel : ℕ) (h : Handler World) (q r : Round World)
      → round bus locals h.state h ≡ q
      → ((h' : Handler World)
          → rounds bus locals fuel h' ≡ some r
          → rounds bus locals (suc fuel) h' ≡ some r)
      → rounds bus locals (suc fuel) h ≡ some r
      → rounds bus locals (suc (suc fuel)) h ≡ some r
  unfolding rounds
  rounds_step fuel h (returns h') r e more = rw (e, rounds) (λ run. run)
  rounds_step fuel h (continues h') r e more = rw (e, rounds) (more h')
  rounds_step fuel h waits r e more = rw (e, rounds) (λ run. run)
  rounds_step fuel h overflows r e more = rw (e, rounds) (λ run. run)

  rounds-suc :
      (fuel : ℕ) (h : Handler World) (r : Round World)
      → rounds bus locals fuel h ≡ some r
      → rounds bus locals (suc fuel) h ≡ some r
  unfolding rounds
  rounds-suc zero h r e = grind arith
  rounds-suc (suc fuel) h r e =
      rounds_step fuel h (round bus locals h.state h) r refl (λ h' run. rounds-suc fuel h' r run) e

  pub rounds_more :
      (extra fuel : ℕ) (h : Handler World) (r : Round World)
      → rounds bus locals fuel h ≡ some r
      → rounds bus locals (extra + fuel) h ≡ some r
  rounds_more zero fuel h r e = ap (λ n. rounds bus locals n h) none_more ∙ e
    where
      none_more : 0 + fuel ≡ fuel
      none_more = omega arith
  rounds_more (suc extra) fuel h r e =
      ap (λ n. rounds bus locals n h) one_more
      ∙ rounds-suc (extra + fuel) h r (rounds_more extra fuel h r e)
    where
      one_more : suc extra + fuel ≡ suc (extra + fuel)
      one_more = omega arith
